-- ===== src/Scheduler/Select/Limit.antt =====
-- The tenancy limit of a shared definition, across the choice of a cluster and its claim.
use mathlib.Core.Path.{subst}
use openmcp_operator.Prelude.{
  ℕ, zero, suc, ◌+◌, ◌≤◌, ◌<◌, pos, some, List, [], ◌∷◌, true, ◌≡◌, ap, Bool-cases, inl, inr, ◌||◌,
  arith, contains, length, ◌∙◌, All, ◌<>◌, eq_iff,
}
use openmcp_operator.Flow.{Outcome, next, stop, panic, Outcome-cases}
use openmcp_operator.Api.Meta.{request_finalizer_on_cluster_prefix as prefix}
use openmcp_operator.Api.Cluster.{Cluster, get_tenancy_count}
use openmcp_operator.Api.Tenancy.{tenancy_count_claim, tenancy_count_mono, prefix-eq}
use openmcp_operator.Api.Requests.{ClusterRequest, finalizer_for_cluster}
use openmcp_operator.Config.Labels.{Labels}
use openmcp_operator.Config.Scheduler.{ClusterDefinition}
use openmcp_operator.Platform.{Library, LibraryLaws, Client}
use openmcp_operator.Scheduler.Choose.{is_alive, candidates}
use openmcp_operator.Scheduler.Choose.Fair.{candidates_below, All-least}
use openmcp_operator.Scheduler.State.{ReconcileResult, with_finalizers, at_index}
use openmcp_operator.Scheduler.Select.{
  fetch_relevant_clusters, choose_by_strategy, choose_among, choose_cluster,
}

-- What holds of the cluster that an action goes on with.
abbrev Picks : (Cluster → Type 0) → Outcome ReconcileResult Cluster → Type 0
Picks P (next c) = P c
Picks P (stop r) = Unit
Picks P panic = Unit

abbrev claimed : Library → ClusterRequest → Cluster → Cluster
claimed lib cr c = with_finalizers c (lib.add_finalizer c.finalizers (finalizer_for_cluster cr)).0

-- The finalizer of one request adds at most one to the count.
claimed-le :
    (lib : Library) (cr : ClusterRequest) (c : Cluster)
    → LibraryLaws lib
    → get_tenancy_count (claimed lib cr c) ≤ get_tenancy_count c + 1
unfolding finalizer_for_cluster
claimed-le lib cr c laws = elim (Bool-cases (contains c.finalizers (prefix <> cr.uid))) [
  | inl old ↦ omega (
    arith,
    tenancy_count_mono (claimed lib cr c) c (λ v h. ground (
      arith,
      laws.add_finalizer_contains c.finalizers (prefix <> cr.uid) (prefix <> v),
      h,
      old,
      eq_iff (prefix <> cr.uid) (prefix <> v),
    )),
  )
  | inr new ↦ omega (
    arith,
    tenancy_count_claim c (claimed lib cr c) cr.uid
        (λ v.
          laws.add_finalizer_contains c.finalizers (prefix <> cr.uid) (prefix <> v)
          ∙ ap (λ b. b || contains c.finalizers (prefix <> v)) (prefix-eq cr.uid v))
        new,
  )
]

module _ {labels : Labels} (lib : Library) (client : Client labels) (old : ClusterRequest) where
  at_index-Picks :
      (P : Cluster → Type 0) (cs : List Cluster) (i : ℕ) (w : client.World)
      → All P cs
      → Picks P (at_index client cs i w).0
  at_index-Picks P [] i w h = tt
  at_index-Picks P (c ∷ cs) zero w h = h.0
  at_index-Picks P (c ∷ cs) (suc i) w h = at_index-Picks P cs i w h.1

  strategy-Picks :
      (P : Cluster → Type 0) (cr : ClusterRequest) (c : Cluster) (cs : List Cluster)
      (w : client.World)
      → P c
      → All P cs
      → Picks P (choose_by_strategy lib client old cr c cs w).0
  unfolding choose_by_strategy
  strategy-Picks P cr c cs w p h =
      let v = (client.get_config w).1 in
      let r = client.rand_int_n (length (c ∷ cs)) v in
      ground (
        arith,
        All-least P c (get_tenancy_count c) cs p h,
        at_index-Picks P (c ∷ cs) r.0 r.1 (p, h),
      )

  among-Picks :
      (P : Cluster → Type 0) (cr : ClusterRequest) (cs : List Cluster) (w : client.World)
      → (c : Cluster) → All P cs
      → (choose_among lib client old cr cs w).0 ≡ next (some c)
      → P c
  unfolding choose_among
  among-Picks P cr [] w c h e = ground arith
  among-Picks P cr (x ∷ []) w c h e = subst P (cc) h.0
  among-Picks P cr (x ∷ y ∷ cs) w c h e =
      elim (Outcome-cases (choose_by_strategy lib client old cr x (y ∷ cs) w).0) [
        | inl (c', q) ↦
            let same : c' ≡ c = ground (arith, q, e) in
            subst (Picks P) (q ∙ ap next same) (strategy-Picks P cr x (y ∷ cs) w h.0 h.1)
        | inr (inl (r, q)) ↦ absurd (ground arith)
        | inr (inr q) ↦ absurd (ground arith)
      ]

  -- Where `choose_cluster` goes on with a cluster of a definition with a positive limit, the
  -- cluster is not being deleted, and with the finalizer of the request added it stays within
  -- the limit.
  pub choose_cluster_limit :
      LibraryLaws lib
      → (cr : ClusterRequest) (d : ClusterDefinition labels) (limit : ℕ) (c : Cluster)
      → (w : client.World) → d.tenancy_count ≡ pos limit
      → 0 < limit
      → (choose_cluster lib client old cr (some d) w).0 ≡ next (some c)
      → (is_alive c ≡ true)
        × (get_tenancy_count
              (with_finalizers c (lib.add_finalizer c.finalizers (finalizer_for_cluster cr)).0)
            ≤ limit)
  unfolding choose_cluster
  choose_cluster_limit laws cr d limit c w ed pl e =
      elim (Outcome-cases (fetch_relevant_clusters lib client old cr (some d) w).0) [
        | inl (cs, q) ↦
            let v = (fetch_relevant_clusters lib client old cr (some d) w).1 in
            let chosen : (choose_among lib client old cr (candidates d cs) v).0 ≡ next (some c) =
              ground (arith, e, q) in
            let (fits, alive) =
              among-Picks (λ x. (get_tenancy_count x < limit) × (is_alive x ≡ true)) cr
                (candidates d cs) v c (candidates_below d limit cs ed pl) chosen in
            (alive, omega (arith, claimed-le lib cr c laws))
        | inr (inl (r, q)) ↦ absurd (ground arith)
        | inr (inr q) ↦ absurd (ground arith)
      ]
