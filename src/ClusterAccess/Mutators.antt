-- ===== src/ClusterAccess/Mutators.antt =====
-- The mutators of the requests (lib/clusteraccess/clusteraccess.go).
pub mod Laws
use openmcp_operator.Prelude.{String, Option, none, some, List, [], ◌≡◌, refl, arith, Option-cases}
use openmcp_operator.Api.Meta.{ObjectMeta, ObjectReference}
use openmcp_operator.Api.Iam.{
  RoleRef, OidcProviderConfig, PermissionsRequest, TokenConfig, OidcConfig,
}
use openmcp_operator.Api.Requests.{ClusterRequest, AccessRequest}

-- `MetadataMutator.Mutate` of controller-utils, `none` for its error.
abbrev pub MetadataMutator : Type 0
MetadataMutator = ObjectMeta → Option ObjectMeta

pub record ClusterRequestMutator : Type 0 where
  pub name : String
  pub namespace : String
  pub purpose : String
  pub metadata : Option MetadataMutator

pub record AccessRequestMutator : Type 0 where
  pub name : String
  pub namespace : String
  pub request_ref : Option ObjectReference
  pub cluster_ref : Option ObjectReference
  pub token_permissions : Option (List PermissionsRequest)
  pub token_role_refs : Option (List RoleRef)
  pub oidc_provider : Option OidcProviderConfig
  pub oidc_additional_roles : Option (List PermissionsRequest)
  pub metadata : Option MetadataMutator

-- The metadata is mutated if there is a mutator for it.
unfoldable pub mutate_metadata : Option MetadataMutator → ObjectMeta → Option ObjectMeta
mutate_metadata none m = some m
mutate_metadata (some mutate) m = mutate m

unfoldable pub mutate_cluster_request :
    ClusterRequestMutator → ClusterRequest → Option ClusterRequest
unfolding mutate_metadata
mutate_cluster_request c cr = elim (mutate_metadata c.metadata cr.metadata) [
  | none ↦ none
  | some m ↦ some (record cr { metadata = m; purpose = c.purpose })
]

-- `TokenConfig{}` in place of nil.
abbrev pub token_or_empty : Option TokenConfig → TokenConfig
token_or_empty none = record { permissions = []; role_refs = [] }
token_or_empty (some t) = t

-- `OIDCConfig{}` in place of nil.
abbrev pub oidc_or_empty : Option OidcConfig → OidcConfig
oidc_or_empty none = record {
  provider = record {
    name = "";
    issuer = "";
    client_id = "";
    groups_prefix = none;
    groups_claim = "";
    username_prefix = none;
    username_claim = "";
    extra_scopes = [];
    role_bindings = [];
  };
  roles = [];
}
oidc_or_empty (some o) = o

unfoldable pub mutate_permissions :
    Option (List PermissionsRequest) → Option TokenConfig → Option TokenConfig
mutate_permissions none t = t
mutate_permissions (some ps) t = some (record (token_or_empty t) { permissions = ps })

unfoldable pub mutate_role_refs : Option (List RoleRef) → Option TokenConfig → Option TokenConfig
mutate_role_refs none t = t
mutate_role_refs (some rs) t = some (record (token_or_empty t) { role_refs = rs })

unfoldable pub mutate_provider : Option OidcProviderConfig → Option OidcConfig → Option OidcConfig
mutate_provider none o = o
mutate_provider (some p) o = some (record (oidc_or_empty o) { provider = p })

unfoldable pub mutate_roles :
    Option (List PermissionsRequest) → Option OidcConfig → Option OidcConfig
mutate_roles none o = o
mutate_roles (some rs) o = some (record (oidc_or_empty o) { roles = rs })

unfoldable pub mutate_ref : Option ObjectReference → Option ObjectReference → Option ObjectReference
mutate_ref none r = r
mutate_ref (some s) r = some s

-- The fields of the spec are set, which are left as they are where the mutator has none.
unfoldable pub mutate_spec : AccessRequestMutator → AccessRequest → AccessRequest
unfolding mutate_permissions mutate_role_refs mutate_provider mutate_roles mutate_ref
mutate_spec c ar = record ar {
  token = mutate_role_refs c.token_role_refs (mutate_permissions c.token_permissions ar.token);
  oidc = mutate_roles c.oidc_additional_roles (mutate_provider c.oidc_provider ar.oidc);
  request_ref = mutate_ref c.request_ref ar.request_ref;
  cluster_ref = mutate_ref c.cluster_ref ar.cluster_ref;
}

unfoldable pub mutate_access_request : AccessRequestMutator → AccessRequest → Option AccessRequest
unfolding mutate_spec mutate_metadata
mutate_access_request c ar = elim (mutate_metadata c.metadata ar.metadata) [
  | none ↦ none
  | some m ↦ some (record (mutate_spec c ar) { metadata = m })
]
