-- ===== src/AccessRequest/Responsible.antt =====
-- Whether a ClusterProvider or the generic controller handles an AccessRequest (lib/utils/provider.go).
use openmcp_operator.Prelude.{
  String, Option, none, some, Bool, true, false, not, ◌&&◌, ◌==◌, ◌≡◌, ◌≢◌, sym, ◌∙◌, arith, eqb,
  is_some, if◌then◌else◌, eq_iff, inl, inr, Option-cases,
}
use openmcp_operator.Api.Meta.{get, provider_label, profile_label, request_granted, request_pending}
use openmcp_operator.Api.Requests.{AccessRequest}

-- `IsClusterProviderResponsibleForAccessRequest`; the empty name stands for any provider.
unfoldable pub is_responsible : Option AccessRequest → String → Bool
is_responsible none provider_name = false
is_responsible (some ar) provider_name = elim (get provider_label ar.labels) [
  | none ↦ false
  | some provider ↦
      if not (provider_name == "") && not (provider == provider_name)
      then false
      else if not (is_some (get profile_label ar.labels))
      then false
      else if not (ar.phase == request_granted) && not (ar.phase == request_pending)
      then false
      else if ar.phase == request_granted && not (eqb ar.observed_generation ar.generation)
      then false
      else true
]

-- At most one provider, among those with a name that is not empty, is responsible for a request.
pub responsible_unique :
    (ar : AccessRequest) (p q : String)
    → p ≢ ""
    → q ≢ ""
    → is_responsible (some ar) p ≡ true
    → is_responsible (some ar) q ≡ true
    → p ≡ q
unfolding is_responsible
responsible_unique ar p q np nq hp hq = elim (Option-cases (get provider_label ar.labels)) [
  | inl e ↦ absurd (ground (arith, e, hp))
  | inr (r, e) ↦
      let is_p : r ≡ p = (eq_iff r p).0 (ground (arith, e, hp, np, eq_iff p "")) in
      let is_q : r ≡ q = (eq_iff r q).0 (ground (arith, e, hq, nq, eq_iff q "")) in sym is_p ∙ is_q
]

-- If some provider is responsible for a request, the generic controller sees one as responsible.
pub responsible_any :
    (ar : AccessRequest) (p : String)
    → is_responsible (some ar) p ≡ true
    → is_responsible (some ar) "" ≡ true
unfolding is_responsible
responsible_any ar p h = elim (Option-cases (get provider_label ar.labels)) [
  | inl e ↦ absurd (ground (arith, e, h))
  | inr (r, e) ↦ ground (arith, e, h)
]
