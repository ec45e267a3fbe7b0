-- ===== src/ClusterAccess/Mutators/Laws.antt =====
-- What a mutator of an AccessRequest sets, once and again.
use openmcp_operator.Prelude.{
  Option, none, some, List, ◌≡◌, refl, inl, inr, arith, Option-cases, sym, ap, subst, ◌∙◌,
}
use mathlib.Core.Option.{some-injective}
use openmcp_operator.Api.Meta.{ObjectMeta, ObjectReference}
use openmcp_operator.Api.Iam.{
  RoleRef, OidcProviderConfig, PermissionsRequest, TokenConfig, OidcConfig,
}
use openmcp_operator.Api.Requests.{AccessRequest}
use openmcp_operator.ClusterAccess.Mutators.{
  AccessRequestMutator, mutate_metadata, mutate_access_request, mutate_spec, mutate_permissions,
  mutate_role_refs, mutate_provider, mutate_roles, mutate_ref, token_or_empty, oidc_or_empty,
}

token_again :
    (ps : Option (List PermissionsRequest)) (rs : Option (List RoleRef)) (t : Option TokenConfig)
    → mutate_role_refs rs (mutate_permissions ps (mutate_role_refs rs (mutate_permissions ps t)))
      ≡ mutate_role_refs rs (mutate_permissions ps t)
unfolding mutate_permissions mutate_role_refs
token_again none none t = refl
token_again none (some rs) t = refl
token_again (some ps) none t = refl
token_again (some ps) (some rs) t = refl

oidc_again :
    (p : Option OidcProviderConfig) (rs : Option (List PermissionsRequest)) (o : Option OidcConfig)
    → mutate_roles rs (mutate_provider p (mutate_roles rs (mutate_provider p o)))
      ≡ mutate_roles rs (mutate_provider p o)
unfolding mutate_provider mutate_roles
oidc_again none none o = refl
oidc_again none (some rs) o = refl
oidc_again (some p) none o = refl
oidc_again (some p) (some rs) o = refl

ref_again : (r s : Option ObjectReference) → mutate_ref r (mutate_ref r s) ≡ mutate_ref r s
unfolding mutate_ref
ref_again none s = refl
ref_again (some r) s = refl

spec_again :
    (c : AccessRequestMutator) (ar : AccessRequest) (m n : ObjectMeta)
    → record (mutate_spec c (record (mutate_spec c ar) { metadata = m })) { metadata = n }
      ≡ record (mutate_spec c ar) { metadata = n }
unfolding mutate_spec
spec_again c ar m n i = record ar {
  metadata = n;
  token = token_again c.token_permissions c.token_role_refs ar.token i;
  oidc = oidc_again c.oidc_provider c.oidc_additional_roles ar.oidc i;
  request_ref = ref_again c.request_ref ar.request_ref i;
  cluster_ref = ref_again c.cluster_ref ar.cluster_ref i;
}

mutated :
    (c : AccessRequestMutator) (ar : AccessRequest) (m : ObjectMeta)
    → mutate_metadata c.metadata ar.metadata ≡ some m
    → mutate_access_request c ar ≡ some (record (mutate_spec c ar) { metadata = m })
unfolding mutate_access_request
mutated c ar m e = rw (e, mutate_access_request) refl

-- What the mutator names, or else what was there.
abbrev pub named : {A : Type 0} → Option A → A → A
named none before = before
named (some a) before = a

-- The request behind a mutation: what the mutator names is set, and all else stays.
pub record Mutated (c : AccessRequestMutator) (ar new : AccessRequest) : Type 0 where
  pub metadata : mutate_metadata c.metadata ar.metadata ≡ some new.metadata
  pub cluster_ref : (r : ObjectReference) → c.cluster_ref ≡ some r → new.cluster_ref ≡ some r
  pub cluster_ref_stays : c.cluster_ref ≡ none → new.cluster_ref ≡ ar.cluster_ref
  pub request_ref : (r : ObjectReference) → c.request_ref ≡ some r → new.request_ref ≡ some r
  pub request_ref_stays : c.request_ref ≡ none → new.request_ref ≡ ar.request_ref
  pub permissions :
      (token_or_empty new.token).permissions
      ≡ named c.token_permissions (token_or_empty ar.token).permissions
  pub role_refs :
      (token_or_empty new.token).role_refs
      ≡ named c.token_role_refs (token_or_empty ar.token).role_refs
  pub token_stays : c.token_permissions ≡ none → c.token_role_refs ≡ none → new.token ≡ ar.token
  pub provider :
      (oidc_or_empty new.oidc).provider ≡ named c.oidc_provider (oidc_or_empty ar.oidc).provider
  pub roles :
      (oidc_or_empty new.oidc).roles ≡ named c.oidc_additional_roles (oidc_or_empty ar.oidc).roles
  pub oidc_stays : c.oidc_provider ≡ none → c.oidc_additional_roles ≡ none → new.oidc ≡ ar.oidc
  pub ttl : new.ttl ≡ ar.ttl
  pub phase : new.phase ≡ ar.phase
  pub secret_ref : new.secret_ref ≡ ar.secret_ref

permissions_named :
    (ps : Option (List PermissionsRequest)) (rs : Option (List RoleRef)) (t : Option TokenConfig)
    → (token_or_empty (mutate_role_refs rs (mutate_permissions ps t))).permissions
      ≡ named ps (token_or_empty t).permissions
unfolding mutate_permissions mutate_role_refs
permissions_named none none t = refl
permissions_named none (some rs) t = refl
permissions_named (some ps) none t = refl
permissions_named (some ps) (some rs) t = refl

role_refs_named :
    (ps : Option (List PermissionsRequest)) (rs : Option (List RoleRef)) (t : Option TokenConfig)
    → (token_or_empty (mutate_role_refs rs (mutate_permissions ps t))).role_refs
      ≡ named rs (token_or_empty t).role_refs
unfolding mutate_permissions mutate_role_refs
role_refs_named none none t = refl
role_refs_named none (some rs) t = refl
role_refs_named (some ps) none t = refl
role_refs_named (some ps) (some rs) t = refl

provider_named :
    (p : Option OidcProviderConfig) (rs : Option (List PermissionsRequest)) (o : Option OidcConfig)
    → (oidc_or_empty (mutate_roles rs (mutate_provider p o))).provider
      ≡ named p (oidc_or_empty o).provider
unfolding mutate_provider mutate_roles
provider_named none none o = refl
provider_named none (some rs) o = refl
provider_named (some p) none o = refl
provider_named (some p) (some rs) o = refl

roles_named :
    (p : Option OidcProviderConfig) (rs : Option (List PermissionsRequest)) (o : Option OidcConfig)
    → (oidc_or_empty (mutate_roles rs (mutate_provider p o))).roles
      ≡ named rs (oidc_or_empty o).roles
unfolding mutate_provider mutate_roles
roles_named none none o = refl
roles_named none (some rs) o = refl
roles_named (some p) none o = refl
roles_named (some p) (some rs) o = refl

spec-Mutated :
    (c : AccessRequestMutator) (ar : AccessRequest) (m : ObjectMeta)
    → mutate_metadata c.metadata ar.metadata ≡ some m
    → Mutated c ar (record (mutate_spec c ar) { metadata = m })
unfolding mutate_spec mutate_ref mutate_permissions mutate_role_refs mutate_provider mutate_roles
spec-Mutated c ar m e = record {
  metadata = e;
  cluster_ref = λ r h. rw h refl;
  cluster_ref_stays = λ h. rw h refl;
  request_ref = λ r h. rw h refl;
  request_ref_stays = λ h. rw h refl;
  permissions = permissions_named c.token_permissions c.token_role_refs ar.token;
  role_refs = role_refs_named c.token_permissions c.token_role_refs ar.token;
  token_stays = λ h k. rw (h, k) refl;
  provider = provider_named c.oidc_provider c.oidc_additional_roles ar.oidc;
  roles = roles_named c.oidc_provider c.oidc_additional_roles ar.oidc;
  oidc_stays = λ h k. rw (h, k) refl;
  ttl = refl;
  phase = refl;
  secret_ref = refl;
}

-- If the mutator of the metadata changes nothing the second time, then a mutated AccessRequest has what
-- its mutator names, and else what it had, and mutating it again leaves it as it is.
pub mutate_access_request_sets :
    (c : AccessRequestMutator) (ar new : AccessRequest)
    → ((m n : ObjectMeta)
        → mutate_metadata c.metadata m ≡ some n
        → mutate_metadata c.metadata n ≡ some n)
    → mutate_access_request c ar ≡ some new
    → Mutated c ar new × (mutate_access_request c new ≡ some new)
unfolding mutate_access_request
mutate_access_request_sets c ar new again h =
    elim (Option-cases (mutate_metadata c.metadata ar.metadata)) [
      | inl e ↦ absurd (ground (arith, e, h))
      | inr (m, e) ↦
          let once : AccessRequest = record (mutate_spec c ar) { metadata = m } in
          let same : once ≡ new = some-injective once new (sym (mutated c ar m e) ∙ h) in
          (
            subst (Mutated c ar) same (spec-Mutated c ar m e),
            subst (λ x. mutate_access_request c x ≡ some x) same
                (mutated c once m (again ar.metadata m e) ∙ ap some (spec_again c ar m m)),
          )
    ]
