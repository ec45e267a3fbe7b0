-- ===== src/Api/Tenancy.antt =====
-- What `GetRequestUIDs` and `GetTenancyCount` compute (api/clusters/v1alpha1/cluster_types.go).
use openmcp_operator.Prelude.{
  ◌+◌, ◌≤◌, ◌≡◌, sym, ap, ◌∙◌, inl, inr, String, List, [], ◌∷◌, true, false, ◌||◌, arith, contains,
  insert, cut_prefix, cut_prefix-append, cut_prefix-some, ◌==◌, eq_iff, ◌<>◌, contains-insert,
  insert-Distinct, Distinct, length-le_of_subset, Option-cases,
}
use openmcp_operator.Api.Meta.{request_finalizer_on_cluster_prefix as prefix}
use openmcp_operator.Api.Cluster.{
  Cluster, collect_request_uids, get_request_uids, get_tenancy_count,
}

collect-Distinct :
    (res fins : List String) → Distinct res → Distinct (collect_request_uids res fins)
unfolding collect_request_uids
collect-Distinct res [] d = d
collect-Distinct res (fin ∷ fins) d = elim (Option-cases (cut_prefix fin prefix)) [
  | inl e ↦ rw e (collect-Distinct res fins d)
  | inr (u, e) ↦ rw e (collect-Distinct (insert u res) fins (insert-Distinct u res d))
]

contains-collect :
    (res fins : List String) (u : String)
    → contains (collect_request_uids res fins) u ≡ (contains res u || contains fins (prefix <> u))
unfolding collect_request_uids contains
contains-collect res [] u = ground arith
contains-collect res (fin ∷ fins) u = elim (Option-cases (cut_prefix fin prefix)) [
  | inl e ↦ rw e (
      ground
        (arith, contains-collect res fins u, cut_prefix-append prefix u, eq_iff fin (prefix <> u)))
  | inr (v, e) ↦ rw e (
      ground (
        arith,
        contains-collect (insert v res) fins u,
        contains-insert v u res,
        cut_prefix-some prefix fin v e,
        cut_prefix-append prefix u,
        eq_iff v u,
        eq_iff fin (prefix <> u),
      ))
]

-- The UIDs found are those of the finalizers with the request prefix.
pub contains-get_request_uids :
    (c : Cluster) (u : String)
    → contains (get_request_uids c) u ≡ contains c.finalizers (prefix <> u)
unfolding get_request_uids contains
contains-get_request_uids c u = contains-collect [] c.finalizers u

get_request_uids-Distinct : (c : Cluster) → Distinct (get_request_uids c)
unfolding get_request_uids
get_request_uids-Distinct c = collect-Distinct [] c.finalizers tt

-- A cluster with fewer request finalizers has no larger count.
pub tenancy_count_mono :
    (c d : Cluster)
    → ((u : String)
        → contains c.finalizers (prefix <> u) ≡ true
        → contains d.finalizers (prefix <> u) ≡ true)
    → get_tenancy_count c ≤ get_tenancy_count d
unfolding get_tenancy_count
tenancy_count_mono c d h =
    length-le_of_subset (get_request_uids c) (get_request_uids d) (get_request_uids-Distinct c)
      (λ u m. contains-get_request_uids d u ∙ h u (sym (contains-get_request_uids c u) ∙ m))

-- If a cluster has one more request finalizer than another, and the other does not have it, its
-- tenancy count is larger by one.
pub tenancy_count_claim :
    (c d : Cluster) (u : String)
    → ((v : String)
        → contains d.finalizers (prefix <> v) ≡ (u == v || contains c.finalizers (prefix <> v)))
    → contains c.finalizers (prefix <> u) ≡ false
    → get_tenancy_count d ≡ get_tenancy_count c + 1
unfolding get_tenancy_count
tenancy_count_claim c d u h new = omega (
  arith,
  length-le_of_subset (u ∷ get_request_uids c) (get_request_uids d)
      (absent, get_request_uids-Distinct c) below,
  length-le_of_subset (get_request_uids d) (u ∷ get_request_uids c) (get_request_uids-Distinct d)
      above,
)
  where
    absent : contains (get_request_uids c) u ≡ false
    absent = contains-get_request_uids c u ∙ new

    same : (v : String) → contains (get_request_uids d) v ≡ contains (u ∷ get_request_uids c) v
    same v =
        contains-get_request_uids d v
        ∙ h v
        ∙ unfold contains in ap (λ b. u == v || b) (sym (contains-get_request_uids c v))

    below :
        (v : String)
        → contains (u ∷ get_request_uids c) v ≡ true
        → contains (get_request_uids d) v ≡ true
    below v m = same v ∙ m

    above :
        (v : String)
        → contains (get_request_uids d) v ≡ true
        → contains (u ∷ get_request_uids c) v ≡ true
    above v m = sym (same v) ∙ m

pub prefix-eq : (u v : String) → ((prefix <> u) == (prefix <> v)) ≡ (u == v)
prefix-eq u v = ground (
  arith,
  eq_iff (prefix <> u) (prefix <> v),
  eq_iff u v,
  cut_prefix-append prefix u,
  cut_prefix-append prefix v,
)

pub tenancy_count_single :
    (c : Cluster) (u : String) → c.finalizers ≡ (prefix <> u) ∷ [] → get_tenancy_count c ≡ 1
unfolding get_tenancy_count get_request_uids collect_request_uids insert contains
tenancy_count_single c u e = ground (arith, cut_prefix-append prefix u)
