-- ===== src/Api/Iam.antt =====
-- Access configurations (api/common/oidc_types.go, and the token and OIDC parts of
-- api/clusters/v1alpha1/accessrequest_types.go).
use openmcp_operator.Prelude.{String, Option, none, some, List, Bool, ◌==◌, ◌<>◌, if◌then◌else◌}

-- `rbacv1.Subject`.
pub record Subject : Type 0 where
  pub kind : String
  pub api_group : String
  pub name : String
  pub namespace : String

pub record RoleRef : Type 0 where
  pub name : String
  pub namespace : String
  pub kind : String

pub record RoleBindings : Type 0 where
  pub subjects : List Subject
  pub role_refs : List RoleRef

pub record OidcProviderConfig : Type 0 where
  pub name : String
  pub issuer : String
  pub client_id : String
  pub groups_prefix : Option String
  pub groups_claim : String
  pub username_prefix : Option String
  pub username_claim : String
  pub extra_scopes : List String
  pub role_bindings : List RoleBindings

-- `OIDCProviderConfig.Default`, for a receiver that is not nil.
unfoldable pub default_oidc : OidcProviderConfig → OidcProviderConfig
default_oidc o = record o {
  groups_claim = if o.groups_claim == "" then "groups" else o.groups_claim;
  username_claim = if o.username_claim == "" then "sub" else o.username_claim;
}

unfoldable pub get_groups_prefix : OidcProviderConfig → String
get_groups_prefix o = elim o.groups_prefix [ none ↦ o.name <> ":" | some p ↦ p ]

unfoldable pub get_username_prefix : OidcProviderConfig → String
get_username_prefix o = elim o.username_prefix [ none ↦ o.name <> ":" | some p ↦ p ]

-- `rbacv1.PolicyRule`.
pub record PolicyRule : Type 0 where
  pub verbs : List String
  pub api_groups : List String
  pub resources : List String
  pub resource_names : List String
  pub non_resource_urls : List String

pub record PermissionsRequest : Type 0 where
  pub name : String
  pub namespace : String
  pub disable_automatic_namespace_creation : Bool
  pub rules : List PolicyRule

-- `TokenConfig` of an AccessRequest.
pub record TokenConfig : Type 0 where
  pub permissions : List PermissionsRequest
  pub role_refs : List RoleRef

-- `OIDCConfig` of an AccessRequest, with the provider it embeds.
pub record OidcConfig : Type 0 where
  pub provider : OidcProviderConfig
  pub roles : List PermissionsRequest
