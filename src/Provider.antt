-- ===== src/Provider.antt =====
-- The controller of providers and its installer (internal/controllers/provider).
pub mod Install
pub mod Status
pub mod Reconcile
pub mod Order
pub mod Truth
pub mod Delete
