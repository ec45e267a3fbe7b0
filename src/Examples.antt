-- ===== src/Examples.antt =====
-- Concrete inputs: a platform that answers from memory, and the theorems applied to it.
pub mod Platform
pub mod Scheduler
pub mod Config
pub mod Access
pub mod Guard
pub mod Provider
pub mod ControlPlane
pub mod ClusterAccess
