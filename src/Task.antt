-- ===== src/Task.antt =====
-- internal/services/task: what the service decides before it acts.
pub mod Restart
pub mod Rollback
pub mod Apps
pub mod Errors
pub mod Libraries
pub mod Loops
pub mod Moves
pub mod Nodes
pub mod Operations
pub mod Submit
pub mod Preflight
pub mod Select
pub mod Samples
