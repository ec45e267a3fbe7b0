-- ===== src/Scheduler.antt =====
-- The cluster scheduler (internal/controllers/scheduler/controller.go).
pub mod Naming
pub mod Choose
pub mod State
pub mod Writes
pub mod Granted
pub mod Select
pub mod Make
pub mod Delete
pub mod Reconcile
