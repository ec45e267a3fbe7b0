-- ===== src/Config.antt =====
-- The operator's configuration (internal/config).
pub mod Labels
pub mod Selector
pub mod Scheduler
pub mod ControlPlane
