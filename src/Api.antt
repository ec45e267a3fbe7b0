-- ===== src/Api.antt =====
-- The resources of the API group clusters.openmcp.cloud (api/clusters/v1alpha1, api/common).
pub mod Meta
pub mod Conditions
pub mod Iam
pub mod Cluster
pub mod Requests
pub mod ControlPlane
pub mod Tenancy
pub mod Keys
pub mod Selectors
pub mod Endpoints
