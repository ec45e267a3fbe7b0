-- ===== src/ControlPlane/Create/Request.antt =====
-- The finalizers, the namespace and the ClusterRequest of `handleCreateOrUpdate`: what they write.
use openmcp_operator.Prelude.{
  String, some, List, true, ◌||◌, ◌<>◌, ◌≡◌, refl, inl, inr, arith, contains, Bool-cases, ap, subst,
  sym, eq_iff,
}
use openmcp_operator.Flow.{Answer-cases, platform_cluster_interaction_problem}
use openmcp_operator.Flow.Run.{After, Run-option, Run-pure, Run-if, Run-crash, Run-answer}
use openmcp_operator.Api.Meta.{Dict}
use openmcp_operator.Api.Requests.{ClusterRequest}
use openmcp_operator.Api.ControlPlane.{
  ControlPlane, mcp_finalizer, cluster_request_finalizer_prefix, condition_cluster_request_ready,
}
use openmcp_operator.Config.ControlPlane.{ControlPlaneConfig}
use openmcp_operator.Platform.{Library, LibraryLaws}
use openmcp_operator.ControlPlane.State.{
  ControlPlaneLibrary, ControlPlaneClient, Action, fail_con, failure_of,
}
use openmcp_operator.ControlPlane.Keeps.{Keeps}
use openmcp_operator.ControlPlane.Runs.{Both, Kept, Any, Kept-fail_con}
use openmcp_operator.ControlPlane.Shared.{initial_draft, stable_mcp_namespace}
use openmcp_operator.ControlPlane.Delete.Finalizers.{Whatever}
use openmcp_operator.ControlPlane.Create.{
  mcp_labels, cluster_purpose, new_request, update_labels, with_request_labels, metadata_labels,
  ensure_finalizers, ensure_platform_namespace, create_cluster_request, update_cluster_request,
  ensure_request,
}
use openmcp_operator.ControlPlane.Create.Allowed.{
  finalized, AtHand, Owned, may_create, cluster_purpose-Purposed,
}

module _ (lib : Library) (laws : LibraryLaws lib) (cp : ControlPlaneLibrary)
    (client : ControlPlaneClient) (given : ControlPlane) (start : client.World)
    {P : client.World → Type 0}
    (keeps : Keeps client (may_create lib cp client given start) P) where
  -- What is known of the ControlPlane at hand.
  abbrev Hand : ControlPlane → Type 0
  Hand = AtHand lib client given start

  abbrev Free : {A : Type 0} → Action client A → Type 0
  Free m = Kept client P Whatever m (Any client P Whatever) (Any client P Whatever)

  -- The ControlPlane at hand is this one.
  abbrev Is : ControlPlane → ControlPlane → Type 0
  Is mcp c = c ≡ mcp

  abbrev Same : ControlPlane → {A : Type 0} → Action client A → Type 0
  Same mcp m = Kept client P (Is mcp) m (Any client P (Is mcp)) (Any client P (Is mcp))

  -- The finalizers are added to those that are there.
  added :
      (fins : List String) (a b f : String)
      → contains fins f ≡ true
      → contains (lib.add_finalizer (lib.add_finalizer fins a).0 b).0 f ≡ true
  added fins a b f h = ground (
    arith,
    laws.add_finalizer_contains (lib.add_finalizer fins a).0 b f,
    laws.add_finalizer_contains fins a f,
    h,
  )

  first_added :
      (fins : List String) (a b : String)
      → contains (lib.add_finalizer (lib.add_finalizer fins a).0 b).0 a ≡ true
  first_added fins a b = ground (
    arith,
    laws.add_finalizer_contains (lib.add_finalizer fins a).0 b a,
    laws.add_finalizer_contains fins a a,
    eq_iff a a,
  )

  second_added :
      (fins : List String) (a b : String)
      → contains (lib.add_finalizer (lib.add_finalizer fins a).0 b).0 b ≡ true
  second_added fins a b =
      ground (arith, laws.add_finalizer_contains (lib.add_finalizer fins a).0 b b, eq_iff b b)

  -- Behind the finalizers the ControlPlane at hand is known.
  pub finalizers-Hand :
      (cfg : ControlPlaneConfig)
      → P (client.get_config start).1
      → After
          (Both client P Hand)
          (Any client P Hand)
          (Any client P Hand)
          (ensure_finalizers lib cp client
            ((client.get_config start).1, initial_draft cp cfg given)).0
          (ensure_finalizers lib cp client
            ((client.get_config start).1, initial_draft cp cfg given)).1
  unfolding ensure_finalizers
  finalizers-Hand cfg p =
      let w = (client.get_config start).1 in
      let first = lib.add_finalizer given.finalizers mcp_finalizer in
      let second = lib.add_finalizer first.0 (cluster_request_finalizer_prefix <> given.name) in
      let new = finalized lib given in
      let q =
        keeps.patch_control_plane given new w
          (
            refl,
            added given.finalizers _ _,
            first_added given.finalizers _ _,
            second_added given.finalizers _ _,
          )
          p in
      let mine : Hand new = inl (refl, refl, refl) in
      elim (Bool-cases (second.1 || first.1)) [
        | inl e ↦ elim (Answer-cases (client.patch_control_plane given new w).0) [
          | inl (d, a) ↦ let answered : Hand d = inr a in rw e (rw a ((q, answered), tt))
          | inr (inl a) ↦ rw e (rw a ((q, mine), tt))
          | inr (inr (t, a)) ↦ rw e (rw a ((q, mine), tt))
        ]
        | inr e ↦ rw e ((p, mine), tt)
      ]

  pub platform_namespace-Same :
      (mcp : ControlPlane) (ns : String)
      → Owned lib cp client given start ns
      → Same mcp (ensure_platform_namespace lib cp client ns)
  unfolding ensure_platform_namespace
  platform_namespace-Same mcp ns owned = record {
    at = λ s p.
        let q = keeps.ensure_namespace ns (mcp_labels s.1.mcp) s.0 owned p.0 in
        elim (Answer-cases (client.ensure_namespace ns (mcp_labels s.1.mcp) s.0).0) [
          | inl (u, a) ↦ rw a ((q, p.1), tt)
          | inr (inl a) ↦ rw a ((q, p.1), tt)
          | inr (inr (t, a)) ↦ rw a ((q, p.1), tt)
        ];
  }

  update-Same :
      (mcp : ControlPlane) (metadata : Dict) (cr : ClusterRequest)
      → Same mcp (update_cluster_request lib cp client metadata cr)
  unfolding update_cluster_request
  update-Same mcp metadata cr =
      Run-option (update_labels metadata cr.labels) _ _ (λ e. Run-crash)
        λ r e.
          Run-if r.1 _ _
            (λ b. record {
              at = λ s p.
                  let new = with_request_labels cr r.0 in
                  let q = keeps.update_request new s.0 tt p.0 in
                  elim (Answer-cases (client.update_request new s.0).0) [
                    | inl (u, a) ↦ rw a ((q, p.1), tt)
                    | inr (inl a) ↦ rw a ((q, p.1), tt)
                    | inr (inr (t, a)) ↦ rw a ((q, p.1), tt)
                  ];
            })
            λ b. Run-pure (with_request_labels cr r.0) tt

  create-Same :
      (mcp : ControlPlane) (cfg : ControlPlaneConfig) (ns : String) (metadata : Dict)
      → Hand mcp
      → (client.get_config start).0 ≡ some cfg
      → stable_mcp_namespace lib cp client mcp.name mcp.namespace ≡ some ns
      → Same mcp (create_cluster_request lib cp client ns (cluster_purpose cfg mcp) metadata)
  unfolding create_cluster_request new_request
  create-Same mcp cfg ns metadata hand read space = record {
    at = λ s p.
        let new = new_request s.1.mcp ns (cluster_purpose cfg mcp) metadata in
        let q =
          keeps.create_request new s.0
            (
              mcp,
              cfg,
              hand,
              read,
              ap (λ (c : ControlPlane). c.name) p.1,
              space,
              cluster_purpose-Purposed cfg mcp,
              refl,
            )
            p.0 in
        elim (Answer-cases (client.create_request new s.0).0) [
          | inl (u, a) ↦ rw a ((q, p.1), tt)
          | inr (inl a) ↦ rw a ((q, p.1), tt)
          | inr (inr (t, a)) ↦ rw a ((q, p.1), tt)
        ];
  }

  pub ensure_request-Same :
      (mcp : ControlPlane) (cfg : ControlPlaneConfig) (ns : String)
      → Hand mcp
      → (client.get_config start).0 ≡ some cfg
      → stable_mcp_namespace lib cp client mcp.name mcp.namespace ≡ some ns
      → Same mcp (ensure_request lib cp client cfg ns)
  unfolding ensure_request
  ensure_request-Same mcp cfg ns hand read space = record {
    at = λ s p.
        let asked = client.get_onboarding_namespace s.1.mcp.namespace s.0 in
        let metadata = metadata_labels s.1.mcp asked.0 in
        let got = client.get_request (record { name = s.1.mcp.name; namespace = ns }) asked.1 in
        let kept = keeps.get_request _ asked.1 (keeps.get_onboarding_namespace _ s.0 p.0) in
        (Run-answer got.0 (update_cluster_request lib cp client metadata)
            (create_cluster_request lib cp client ns (cluster_purpose cfg s.1.mcp) metadata)
            (λ e.
              fail_con client cp condition_cluster_request_ready
                (failure_of "unable to get ClusterRequest" platform_cluster_interaction_problem))
            (λ cr. update-Same mcp metadata cr)
            (subst
              (λ c.
                Same mcp (create_cluster_request lib cp client ns (cluster_purpose cfg c) metadata))
              (sym p.1) (create-Same mcp cfg ns metadata hand read space))
            λ e. Kept-fail_con client P (Is mcp) cp _ _).at
          (got.1, s.1) (kept, p.1);
  }
