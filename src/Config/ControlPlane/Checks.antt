-- ===== src/Config/ControlPlane/Checks.antt =====
-- What `Validate` of the ManagedControlPlane configuration accepts, and where it panics.
use openmcp_operator.Prelude.{
  ℤ, String, Option, none, some, List, [], ◌∷◌, ◌++◌, true, false, ◌==◌, ◌≡◌, ◌↔◌, refl, inl, inr,
  arith, All, length, is_negative, Bool-cases, Option-cases, if◌then◌else◌,
}
use openmcp_operator.Api.Iam.{OidcProviderConfig}
use openmcp_operator.Config.ControlPlane.{
  ExposedEndpoint, ControlPlaneConfig, validate_platform_service, validate_endpoints,
  validate_provider, provider_errors, validate_own, validate_control_plane,
}

-- The number of replicas is negative.
abbrev pub NegativeReplicas : ControlPlaneConfig → Type 0
NegativeReplicas c = (n : ℤ) × (c.platform_service.replicas ≡ some n) × (is_negative n ≡ true)

-- `Validate` panics exactly if the number of replicas is negative.
pub validate_control_plane_panics :
    (c : ControlPlaneConfig) → (validate_control_plane c ≡ none) ↔ NegativeReplicas c
unfolding validate_control_plane validate_platform_service
validate_control_plane_panics c = elim (Option-cases c.platform_service.replicas) [
  | inl e ↦ (λ h. absurd (ground (arith, h, e)), λ k. absurd (ground (arith, e, k.1)))
  | inr (n, e) ↦ elim (Bool-cases (is_negative n)) [
    | inl q ↦ (λ h. (n, e, q), λ k. ground (arith, e, q))
    | inr q ↦ (λ h. absurd (ground (arith, h, e, q)), λ k. absurd (ground (arith, e, q, k.1, k.2)))
  ]
]

append_nil_iff : (xs ys : List String) → (xs ++ ys ≡ []) ↔ ((xs ≡ []) × (ys ≡ []))
append_nil_iff [] ys = (λ h. (refl, h), λ k. k.1)
append_nil_iff (x ∷ xs) ys = (λ h. absurd (ground arith), λ k. absurd (ground (arith, k.0)))

validate_endpoints_iff :
    (e : List ExposedEndpoint) → (validate_endpoints e ≡ []) ↔ All (λ ep. (ep.name == "") ≡ false) e
unfolding validate_endpoints
validate_endpoints_iff [] = (λ h. tt, λ k. refl)
validate_endpoints_iff (ep ∷ e) = elim (Bool-cases (ep.name == "")) [
  | inl q ↦ (λ h. absurd (ground (arith, h, q)), λ k. absurd (ground (arith, q, k.0)))
  | inr q ↦ (
    λ h. (q, (validate_endpoints_iff e).0 (ground (arith, h, q))),
    λ k. ground (arith, q, (validate_endpoints_iff e).1 k.1),
  )
]

-- What `Validate` demands of the default OIDC provider.
abbrev pub ValidProvider : Option OidcProviderConfig → Type 0
ValidProvider none = Unit
ValidProvider (some o) = (length o.role_bindings ≡ 0) × ((o.name == "system") ≡ false)

-- What `Validate` demands of the configuration.
pub record Valid (c : ControlPlaneConfig) : Type 0 where
  pub purpose : (c.mcp_cluster_purpose == "") ≡ false
  pub interval : is_negative c.reconcile_mcp_every_x_days ≡ false
  pub endpoints : All (λ ep. (ep.name == "") ≡ false) c.exposed_endpoints
  pub provider : ValidProvider c.default_oidc_provider
  pub replicas : (n : ℤ) → c.platform_service.replicas ≡ some n → is_negative n ≡ false

provider_iff : (o : Option OidcProviderConfig) → (provider_errors o ≡ []) ↔ ValidProvider o
unfolding provider_errors validate_provider
provider_iff none = (λ h. tt, λ k. refl)
provider_iff (some o) = (λ h. (ground (arith, h), ground (arith, h)), λ k. ground (arith, k))

abbrev purpose_errors : ControlPlaneConfig → List String
purpose_errors c =
    if c.mcp_cluster_purpose == "" then "MCP cluster purpose must be set" ∷ [] else []

own_iff :
    (c : ControlPlaneConfig)
    → (validate_own c ≡ []) ↔ (
        ((c.mcp_cluster_purpose == "") ≡ false)
        × (is_negative c.reconcile_mcp_every_x_days ≡ false)
        × All (λ ep. (ep.name == "") ≡ false) c.exposed_endpoints
        × ValidProvider c.default_oidc_provider)
unfolding validate_own
own_iff c = (
  λ h.
      let rest =
        (append_nil_iff _
            (validate_endpoints c.exposed_endpoints ++ provider_errors c.default_oidc_provider)).0
          ((append_nil_iff (purpose_errors c) _).0 h).1 in
      let last = (append_nil_iff (validate_endpoints c.exposed_endpoints) _).0 rest.1 in
      (
        ground (arith, ((append_nil_iff (purpose_errors c) _).0 h).0),
        ground (arith, rest.0),
        (validate_endpoints_iff c.exposed_endpoints).0 last.0,
        (provider_iff c.default_oidc_provider).0 last.1,
      ),
  λ k.
      let es = (validate_endpoints_iff c.exposed_endpoints).1 k.2 in
      let ps = (provider_iff c.default_oidc_provider).1 k.3 in ground (arith, k.0, k.1, es, ps),
)

valid :
    (c : ControlPlaneConfig)
    → (((c.mcp_cluster_purpose == "") ≡ false)
        × (is_negative c.reconcile_mcp_every_x_days ≡ false)
        × All (λ ep. (ep.name == "") ≡ false) c.exposed_endpoints
        × ValidProvider c.default_oidc_provider)
    → ((n : ℤ) → c.platform_service.replicas ≡ some n → is_negative n ≡ false)
    → Valid c
valid c k r = record {
  purpose = k.0;
  interval = k.1;
  endpoints = k.2;
  provider = k.3;
  replicas = r;
}

-- `Validate` returns no error exactly if the purpose is set, the interval and the replicas are not
-- negative, every exposed endpoint is named, and the default provider has no role bindings and is not
-- called system.
pub validate_control_plane_iff :
    (c : ControlPlaneConfig) → (validate_control_plane c ≡ some []) ↔ Valid c
unfolding validate_control_plane validate_platform_service
validate_control_plane_iff c = elim (Option-cases c.platform_service.replicas) [
  | inl e ↦ (
    λ h. valid c ((own_iff c).0 (ground (arith, h, e))) (λ n q. absurd (ground (arith, e, q))),
    λ v. ground (arith, e, (own_iff c).1 (v.purpose, v.interval, v.endpoints, v.provider)),
  )
  | inr (n, e) ↦ elim (Bool-cases (is_negative n)) [
    | inl q ↦
        (λ h. absurd (ground (arith, h, e, q)), λ v. absurd (ground (arith, v.replicas n e, q)))
    | inr q ↦ (
      λ h. valid c ((own_iff c).0 (ground (arith, h, e, q))) (λ m r. ground (arith, e, q, r)),
      λ v. ground (arith, e, q, (own_iff c).1 (v.purpose, v.interval, v.endpoints, v.provider)),
    )
  ]
]
