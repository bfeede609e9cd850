-- ===== src/Deploy/Validate.antt =====
-- internal/deploy/v1alpha1: the validators of a deploy document, and what they make sure of.
pub mod Runtime
pub mod Endpoints
pub mod Health
pub mod Lifecycle
pub mod Workloads
pub mod Apps
pub mod Registered
pub mod Accepted
pub mod Keys
