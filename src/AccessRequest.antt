-- ===== src/AccessRequest.antt =====
-- The controller of AccessRequests (internal/controllers/accessrequest/controller.go).
pub mod State
pub mod Responsible
pub mod Ttl
pub mod Reconcile
pub mod Allowed
pub mod Writes
