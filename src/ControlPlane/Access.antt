-- ===== src/ControlPlane/Access.antt =====
-- The access of a ControlPlane (internal/controllers/controlplane/access.go).
pub mod Desired
pub mod Undesired
pub mod Sync
pub mod Manage
pub mod Unneeded
pub mod Deletion
pub mod Removal
