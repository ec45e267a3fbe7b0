-- ===== src/Config/ControlPlane.antt =====
-- The configuration of the ManagedControlPlane controller and of the platform services
-- (internal/config/config_platformservices.go).
pub mod Exposed
pub mod Checks
use openmcp_operator.Prelude.{
  ℤ, pos, String, Option, none, some, List, [], ◌∷◌, ◌++◌, Bool, not, length, eqb, is_negative,
  ◌==◌, if◌then◌else◌,
}
use openmcp_operator.Api.Cluster.{Endpoint, get_endpoint, set_endpoint}
use openmcp_operator.Api.Iam.{OidcProviderConfig, default_oidc}
use openmcp_operator.Api.ControlPlane.{default_oidc_provider_name, default_mcp_cluster_purpose}

pub record ExposedEndpoint : Type 0 where
  pub name : String
  pub rename_to : String

-- The topology spread constraints are data that no operation here reads.
pub record PlatformServiceConfig : Type 0 where
  pub replicas : Option ℤ

pub record ControlPlaneConfig : Type 0 where
  pub mcp_cluster_purpose : String
  pub default_oidc_provider : Option OidcProviderConfig
  pub reconcile_mcp_every_x_days : ℤ
  pub platform_service : PlatformServiceConfig
  pub exposed_endpoints : List ExposedEndpoint

-- The name that an endpoint is exposed under.
unfoldable pub exposed_name : ExposedEndpoint → String
exposed_name ep = if not (ep.rename_to == "") then ep.rename_to else ep.name

-- The loop of `ExposedEndpoints.Apply`, with the endpoints so far.
unfoldable pub expose : List Endpoint → List ExposedEndpoint → List Endpoint → List Endpoint
expose result [] endpoints = result
expose result (ep ∷ e) endpoints =
    expose
      (elim (get_endpoint ep.name endpoints) [
        | none ↦ result
        | some url ↦ set_endpoint (exposed_name ep) url result
      ])
      e endpoints

-- `ExposedEndpoints.Apply`; nil lists are empty ones.
unfoldable pub apply : List ExposedEndpoint → List Endpoint → List Endpoint
apply e endpoints = expose [] e endpoints

unfoldable pub default_platform_service : PlatformServiceConfig → PlatformServiceConfig
default_platform_service c = elim c.replicas [
  | none ↦ record c { replicas = some (pos 1) }
  | some n ↦ c
]

-- The errors of `PlatformServiceConfig.Validate`; without one, `ToAggregate` is nil.
unfoldable pub validate_platform_service : PlatformServiceConfig → List String
validate_platform_service c = elim c.replicas [
  | none ↦ []
  | some n ↦ if is_negative n then "replicas must not be negative" ∷ [] else []
]

unfoldable pub default_provider : OidcProviderConfig → OidcProviderConfig
unfolding default_oidc
default_provider o =
    let d = default_oidc o in
    if d.name == "" then record d { name = default_oidc_provider_name } else d

unfoldable pub default_control_plane : ControlPlaneConfig → ControlPlaneConfig
default_control_plane c = record c {
  default_oidc_provider = elim c.default_oidc_provider [
    | none ↦ none
    | some o ↦ some (default_provider o)
  ];
  mcp_cluster_purpose =
      if c.mcp_cluster_purpose == "" then default_mcp_cluster_purpose else c.mcp_cluster_purpose;
  platform_service = default_platform_service c.platform_service;
}

unfoldable pub validate_endpoints : List ExposedEndpoint → List String
validate_endpoints [] = []
validate_endpoints (ep ∷ e) =
    let rest = validate_endpoints e in
    if ep.name == "" then "endpoint name must be set" ∷ rest else rest

unfoldable pub validate_provider : OidcProviderConfig → List String
validate_provider o =
    (if not (eqb (length o.role_bindings) 0)
      then "role bindings may not be set in the config" ∷ []
      else [])
    ++ (if o.name == "system" then "'system' is a reserved string" ∷ [] else [])

unfoldable pub provider_errors : Option OidcProviderConfig → List String
provider_errors none = []
provider_errors (some o) = validate_provider o

-- The errors of `ManagedControlPlaneConfig.Validate` before those of the platform service.
unfoldable pub validate_own : ControlPlaneConfig → List String
validate_own c =
    (if c.mcp_cluster_purpose == "" then "MCP cluster purpose must be set" ∷ [] else [])
    ++ ((if is_negative c.reconcile_mcp_every_x_days
          then "reconcile interval must be 0 or greater" ∷ []
          else [])
        ++ (validate_endpoints c.exposed_endpoints ++ provider_errors c.default_oidc_provider))

-- `ManagedControlPlaneConfig.Validate`: the errors, or `none` for the panic of the type assertion
-- `err.(*field.Error)`, which an aggregated error of the platform service fails.
unfoldable pub validate_control_plane : ControlPlaneConfig → Option (List String)
validate_control_plane c =
    if eqb (length (validate_platform_service c.platform_service)) 0
    then some (validate_own c)
    else none
