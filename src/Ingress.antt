-- ===== src/Ingress.antt =====
-- internal/ingress: the routes of the data plane.
pub mod Libraries
pub mod Routing
pub mod Target
pub mod Compile
mod Samples
