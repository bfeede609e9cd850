-- ===== src/Deploy.antt =====
-- internal/deploy/v1alpha1: the deploy document, its validation and its dependency order.
pub mod Document
pub mod Constants
pub mod Errors
pub mod Libraries
pub mod Names
pub mod Dependencies
pub mod Validate
pub mod Samples
