-- ===== src/ControlPlane.antt =====
-- The ManagedControlPlane controller (internal/controllers/controlplane).
pub mod State
pub mod Services
pub mod Requests
pub mod Access
pub mod Shared
pub mod Delete
pub mod Create
pub mod Reconcile
pub mod Keeps
pub mod Runs
