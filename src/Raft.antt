-- ===== src/Raft.antt =====
-- internal/raftsvc: the replicated state machine of the control plane.
pub mod State
pub mod Alike
pub mod Json
pub mod Normalize
pub mod Revisions
pub mod Fsm
pub mod Lookup
pub mod Samples
