-- ===== src/ClusterAccess.antt =====
-- The manager of cluster access (lib/clusteraccess/clusteraccess.go).
pub mod Names
pub mod Mutators
pub mod Manager
pub mod Decided
