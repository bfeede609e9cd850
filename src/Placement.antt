-- ===== src/Placement.antt =====
-- internal/placement: the choice of a node for a workload.
pub mod Libraries
pub mod Choose
pub mod Order
pub mod Preferred
pub mod Best
pub mod Listed
pub mod Decision
pub mod Samples
