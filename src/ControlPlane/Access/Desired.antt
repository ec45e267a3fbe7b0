-- ===== src/ControlPlane/Access/Desired.antt =====
-- `createOrUpdateDesiredAccessRequests` (internal/controllers/controlplane/access.go).
use openmcp_operator.Prelude.{
  String, Option, none, some, List, [], ◌∷◌, ◌++◌, not, ◌<>◌, eqb, length, is_some, MapOf, set_at,
  if◌then◌else◌,
}
use openmcp_operator.Flow.{
  pure, finish, crash, ◌>>=◌, ◌>>◌, Answer, found, not_found, failed, Failure,
  configuration_problem, platform_cluster_interaction_problem,
}
use openmcp_operator.Api.Meta.{GoMap, Dict, items, put, key_of}
use openmcp_operator.Api.Conditions.{condition_false}
use openmcp_operator.Api.Iam.{OidcProviderConfig, RoleBindings}
use openmcp_operator.Api.Requests.{ClusterRequest, AccessRequest}
use openmcp_operator.Api.ControlPlane.{
  ControlPlane, ControlPlaneToken, default_oidc_provider_name, mcp_name_label, mcp_namespace_label,
  managed_by_label, oidc_provider_label, token_provider_label, oidc_name_prefix, token_name_prefix,
  condition_prefix_access_ready, condition_all_access_ready,
}
use openmcp_operator.Config.ControlPlane.{ControlPlaneConfig}
use openmcp_operator.Platform.{Library}
use openmcp_operator.ControlPlane.State.{
  ControlPlaneLibrary, ControlPlaneClient, Step, call, draft, create_con, error_con, failure_of,
}

abbrev pub controller_name : String
controller_name = "ManagedControlPlane"

abbrev pub waiting_for_access_request : String
waiting_for_access_request = "WaitingForAccessRequest"

-- The AccessRequests by the names of their providers.
abbrev pub AccessRequests : Type 0
AccessRequests = MapOf AccessRequest

-- The default provider with the role bindings of the ControlPlane.
unfoldable pub default_entry :
    Option OidcProviderConfig → List RoleBindings → List OidcProviderConfig
default_entry none bindings = []
default_entry (some o) bindings =
    if not (eqb (length bindings) 0)
    then record o { name = default_oidc_provider_name; role_bindings = bindings } ∷ []
    else []

-- The OIDC providers and the tokens that a ControlPlane asks for; none in deletion.
unfoldable pub desired_oidc : ControlPlaneConfig → ControlPlane → List OidcProviderConfig
desired_oidc cfg mcp = if is_some mcp.deletion_timestamp then [] else elim mcp.iam.oidc [
  | none ↦ []
  | some oidc ↦
      default_entry cfg.default_oidc_provider oidc.default_provider.role_bindings
      ++ oidc.extra_providers
]

unfoldable pub desired_tokens : ControlPlane → List ControlPlaneToken
desired_tokens mcp = if is_some mcp.deletion_timestamp then [] else mcp.iam.tokens

-- `setArLabels`, and the labels of a copied secret.
unfoldable pub owner_labels : ControlPlane → GoMap → Dict
owner_labels mcp labels =
    put managed_by_label controller_name
      (put mcp_namespace_label mcp.namespace (put mcp_name_label mcp.name (items labels)))

abbrev pub with_labels : AccessRequest → Dict → AccessRequest
with_labels ar ls = record ar { metadata = record ar.metadata { labels = some ls } }

-- The change of an AccessRequest for an OIDC provider.
unfoldable pub set_oidc :
    ControlPlane → ClusterRequest → OidcProviderConfig → AccessRequest → AccessRequest
set_oidc mcp cr oidc ar =
    with_labels
      (record ar {
        request_ref = some (key_of cr.metadata);
        oidc = some (record { provider = oidc; roles = [] });
      })
      (put oidc_provider_label oidc.name (owner_labels mcp ar.labels))

-- The change of an AccessRequest for a token.
unfoldable pub set_token :
    ControlPlane → ClusterRequest → ControlPlaneToken → AccessRequest → AccessRequest
set_token mcp cr token ar =
    with_labels
      (record ar {
        request_ref = some (key_of cr.metadata);
        token =
            some (record {
              permissions = token.config.permissions;
              role_refs = token.config.role_refs;
            });
      })
      (put token_provider_label token.name (owner_labels mcp ar.labels))

module _ (lib : Library) (cp : ControlPlaneLibrary) (client : ControlPlaneClient) where
  abbrev pub apply_failure : List Failure
  apply_failure =
      failure_of "error creating/updating AccessRequest" platform_cluster_interaction_problem

  -- Both conditions that tell of an AccessRequest that could not be written.
  unfoldable pub fail_apply : {A : Type 0} → String → String → Step client A
  fail_apply provider message = do
    error_con client cp (condition_prefix_access_ready <> provider) apply_failure
    create_con client condition_all_access_ready condition_false waiting_for_access_request message
    finish apply_failure

  -- The AccessRequest that was written, or the error.
  unfoldable pub applied : String → String → Answer AccessRequest → Step client AccessRequest
  applied provider message (found ar) = pure ar
  applied provider message not_found = fail_apply provider message
  applied provider message (failed e) = fail_apply provider message

  -- The change in the closure of `CreateOrUpdate` reads the ClusterRequest: a nil pointer panics.
  unfoldable pub apply_oidc :
      ControlPlane → String → Option ClusterRequest → OidcProviderConfig → Step client AccessRequest
  apply_oidc mcp ns none oidc = crash
  apply_oidc mcp ns (some cr) oidc = do
    let name = lib.name_hash mcp.name (oidc_name_prefix <> oidc.name)
    ans ← call client (
        client.apply_access_request (record { name = name; namespace = ns }) (set_oidc mcp cr oidc))
    applied oidc.name ("Error creating/updating AccessRequest for OIDC provider " <> oidc.name) ans

  unfoldable pub apply_token :
      ControlPlane → String → Option ClusterRequest → ControlPlaneToken → Step client AccessRequest
  apply_token mcp ns none token = crash
  apply_token mcp ns (some cr) token = do
    let name = lib.name_hash mcp.name (token_name_prefix <> token.name)
    ans ← call client (
        client.apply_access_request (record { name = name; namespace = ns })
          (set_token mcp cr token))
    applied (token_name_prefix <> token.name)
        ("Error creating/updating AccessRequest for token " <> token.name) ans

  -- The two loops, with the map so far.
  unfoldable pub apply_oidcs :
      ControlPlane
      → String
      → Option ClusterRequest
      → AccessRequests
      → List OidcProviderConfig
      → Step client AccessRequests
  apply_oidcs mcp ns cr updated [] = pure updated
  apply_oidcs mcp ns cr updated (oidc ∷ oidcs) = do
    ar ← apply_oidc mcp ns cr oidc
    apply_oidcs mcp ns cr (set_at (oidc_name_prefix <> oidc.name) ar updated) oidcs

  unfoldable pub apply_tokens :
      ControlPlane
      → String
      → Option ClusterRequest
      → AccessRequests
      → List ControlPlaneToken
      → Step client AccessRequests
  apply_tokens mcp ns cr updated [] = pure updated
  apply_tokens mcp ns cr updated (token ∷ tokens) = do
    ar ← apply_token mcp ns cr token
    apply_tokens mcp ns cr (set_at (token_name_prefix <> token.name) ar updated) tokens

  unfoldable pub create_or_update_desired :
      String → Option ClusterRequest → Step client AccessRequests
  create_or_update_desired ns cr = do
    config ← call client client.get_config
    cfg ← elim config [
      | none ↦ finish (failure_of "error fetching managedcontrolplane config" configuration_problem)
      | some cfg ↦ pure cfg
    ]
    d ← draft client
    updated ← apply_oidcs d.mcp ns cr [] (desired_oidc cfg d.mcp)
    apply_tokens d.mcp ns cr updated (desired_tokens d.mcp)
