-- ===== src/Api/ControlPlane.antt =====
-- The ControlPlane and what belongs to it: api/core/v2alpha1/managedcontrolplane_types.go and
-- constants.go, the service resources of a ServiceProvider (api/provider/v1alpha1), and the
-- Kubernetes objects that its controller handles.
use openmcp_operator.Prelude.{String, Option, List}
use openmcp_operator.Api.Meta.{Dict, GoMap, ObjectMeta}
use openmcp_operator.Api.Conditions.{Condition}
use openmcp_operator.Api.Iam.{OidcProviderConfig, RoleBindings, TokenConfig}
use openmcp_operator.Api.Cluster.{Endpoint}

-- `TokenConfig` of a ControlPlane, with the token configuration it embeds.
pub record ControlPlaneToken : Type 0 where
  pub name : String
  pub config : TokenConfig

pub record DefaultProviderConfig : Type 0 where
  pub role_bindings : List RoleBindings

-- `OIDCConfig` of a ControlPlane.
pub record ControlPlaneOidc : Type 0 where
  pub default_provider : DefaultProviderConfig
  pub extra_providers : List OidcProviderConfig

pub record IamConfig : Type 0 where
  pub tokens : List ControlPlaneToken
  pub oidc : Option ControlPlaneOidc

-- `access` maps the names of providers to those of secrets.
pub record ControlPlaneStatus : Type 0 where
  pub phase : String
  pub conditions : List Condition
  pub access : GoMap
  pub endpoints : List Endpoint

pub record ControlPlane : Type 0 where
  pub metadata : ObjectMeta
  pub open metadata use *
  pub iam : IamConfig
  pub status : ControlPlaneStatus

-- An entry of a ServiceProvider's `status.resources`.
pub record ResourceType : Type 0 where
  pub group : String
  pub version : String
  pub kind : String

pub record ServiceProvider : Type 0 where
  pub name : String
  pub resources : List ResourceType

-- An `unstructured.Unstructured` with its API version and kind.
pub record ServiceResource : Type 0 where
  pub metadata : ObjectMeta
  pub open metadata use *
  pub api_version : String
  pub kind : String

pub record Secret : Type 0 where
  pub metadata : ObjectMeta
  pub open metadata use *
  pub contents : Dict

pub record Namespace : Type 0 where
  pub metadata : ObjectMeta
  pub open metadata use *

abbrev pub default_oidc_provider_name : String
default_oidc_provider_name = "openmcp"

abbrev pub default_mcp_cluster_purpose : String
default_mcp_cluster_purpose = "mcp"

abbrev pub mcp_name_label : String
mcp_name_label = "core.openmcp.cloud/mcp-name"

abbrev pub mcp_namespace_label : String
mcp_namespace_label = "core.openmcp.cloud/mcp-namespace"

abbrev pub oidc_provider_label : String
oidc_provider_label = "core.openmcp.cloud/oidc-provider"

abbrev pub token_provider_label : String
token_provider_label = "core.openmcp.cloud/token-provider"

abbrev pub mcp_purpose_override_label : String
mcp_purpose_override_label = "core.openmcp.cloud/purpose"

abbrev pub managed_by_label : String
managed_by_label = "openmcp.cloud/managed-by"

abbrev pub mcp_finalizer : String
mcp_finalizer = "core.openmcp.cloud/mcp"

abbrev pub cluster_request_finalizer_prefix : String
cluster_request_finalizer_prefix = "request.clusters.openmcp.cloud/"

abbrev pub condition_meta : String
condition_meta = "Meta"

abbrev pub condition_cluster_request_ready : String
condition_cluster_request_ready = "ClusterRequestReady"

abbrev pub condition_cluster_conditions_synced : String
condition_cluster_conditions_synced = "ClusterConditionsSynced"

abbrev pub condition_prefix_cluster_condition : String
condition_prefix_cluster_condition = "Cluster."

abbrev pub condition_prefix_access_ready : String
condition_prefix_access_ready = "AccessReady."

abbrev pub condition_all_access_ready : String
condition_all_access_ready = "AllAccessReady"

abbrev pub condition_all_services_deleted : String
condition_all_services_deleted = "AllServicesDeleted"

abbrev pub condition_all_cluster_requests_deleted : String
condition_all_cluster_requests_deleted = "AllClusterRequestsDeleted"

abbrev pub oidc_name_prefix : String
oidc_name_prefix = "oidc_"

abbrev pub token_name_prefix : String
token_name_prefix = "token_"
