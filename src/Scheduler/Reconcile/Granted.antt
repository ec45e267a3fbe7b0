-- ===== src/Scheduler/Reconcile/Granted.antt =====
-- What `handleCreateOrUpdate` may write, and its part on requests that are granted.
use openmcp_operator.Prelude.{
  String, Option-cases, Option, none, some, List, true, false, ◌≡◌, refl, ◌⊎◌, inl, inr, arith,
  contains, is_some,
}
use openmcp_operator.Flow.{finish, Answer-cases, ◌>>=◌, ◌>>◌}
use openmcp_operator.Flow.Run.{Run, Run-finish, Run-bind}
use openmcp_operator.Api.Meta.{items, ObjectReference, request_granted, cluster_request_finalizer}
use openmcp_operator.Api.Cluster.{Cluster, get_tenancy_count}
use openmcp_operator.Api.Requests.{ClusterRequest, finalizer_for_cluster}
use openmcp_operator.Config.Labels.{Labels}
use openmcp_operator.Platform.{Library, LibraryLaws, Client}
use openmcp_operator.Scheduler.State.{
  with_finalizers, with_request_finalizers, ReconcileResult, Action, result,
}
use openmcp_operator.Scheduler.Writes.{Allowed, Keeps}
use openmcp_operator.Scheduler.Granted.{
  ensure_finalizer, mark_cluster, propagate_metadata, check_granted, sync_metadata,
}
use openmcp_operator.Scheduler.Reconcile.{phase_of}

-- An error, or the phase `Granted`.
abbrev pub Settled : ReconcileResult → Type 0
Settled r = (is_some r.error ≡ true) ⊎ (phase_of r ≡ request_granted)

-- A patch keeps the spec and every finalizer, a cluster is created with one request, and none is
-- deleted.
abbrev pub may_create : Allowed
may_create = record {
  patches = λ c d.
      (d.spec ≡ c.spec)
      × ((g : String) → contains c.finalizers g ≡ true → contains d.finalizers g ≡ true);
  creates = λ c. get_tenancy_count c ≡ 1;
  updates = λ c. Unit {0};
  deletes = λ c. ⊥;
}

module _ {labels : Labels} (lib : Library) (laws : LibraryLaws lib) (client : Client labels)
    {P : client.World → Type 0} (keeps : Keeps client may_create P) where
  abbrev pub Settles : {A : Type 0} → Action client A → Type 0
  Settles m = Run P m (λ _. Unit {0}) Settled

  module _ (old cr : ClusterRequest) where
    pub ensure_finalizer-Settles : Settles (ensure_finalizer lib client old cr)
    unfolding ensure_finalizer
    ensure_finalizer-Settles = record {
      at = λ w p.
          let fins = (lib.add_finalizer cr.finalizers cluster_request_finalizer).0 in
          ground (arith, keeps.patch_request old (with_request_finalizers cr fins) w);
    }

    pub added_keeps :
        (fins : List String) (f g : String)
        → contains fins g ≡ true
        → contains (lib.add_finalizer fins f).0 g ≡ true
    added_keeps fins f g h = ground (arith, laws.add_finalizer_contains fins f g)

    pub mark_cluster-Settles : (c : Cluster) → Settles (mark_cluster lib client old cr c)
    unfolding mark_cluster
    mark_cluster-Settles c = record {
      at = λ w p.
          let fins = (lib.add_finalizer c.finalizers (finalizer_for_cluster cr)).0 in
          ground (
            arith,
            keeps.patch_cluster c (with_finalizers c fins) w
                (refl, added_keeps c.finalizers (finalizer_for_cluster cr)) p,
          );
    }

    pub propagate_metadata-Settles :
        (c : Cluster) → Settles (propagate_metadata lib client old cr c)
    unfolding propagate_metadata
    propagate_metadata-Settles c = record {
      at = λ w p. elim (Option-cases (sync_metadata (items cr.annotations) c.annotations false)) [
        | inl e ↦ ground arith
        | inr ((a, changed), e) ↦
            elim (Option-cases (sync_metadata (items cr.labels) c.labels changed)) [
              | inl e' ↦ ground arith
              | inr ((l, update), e') ↦ ground (
                arith,
                keeps.patch_cluster c
                    (record c { metadata = record c.metadata { annotations = a; labels = l } }) w
                    (refl, λ g h. h) p,
              )
            ]
      ];
    }

    granted_found :
        (ref : ObjectReference) (c : Cluster)
        → cr.status.cluster ≡ some ref
        → Run {A = Option ObjectReference} P
            (do
              c' ← mark_cluster lib client old cr c
              propagate_metadata lib client old cr c'
              finish (result cr old none))
            (λ _. Unit {0})
            Settled
    unfolding phase_of
    granted_found ref c e =
        Run-bind (mark_cluster lib client old cr c) _ (mark_cluster-Settles c) λ c' _.
          Run-bind (propagate_metadata lib client old cr c') _ (propagate_metadata-Settles c')
            λ _ _. Run-finish (result cr old none) (inr (ground arith))

    pub check_granted-Settles : Settles (check_granted lib client old cr)
    unfolding check_granted
    check_granted-Settles = record {
      at = λ w p. elim (Option-cases cr.status.cluster) [
        | inl e ↦ ground arith
        | inr (ref, e) ↦
            let kept = keeps.get_cluster ref w p in
            elim (Answer-cases (client.get_cluster ref w).0) [
              | inl (c, q) ↦
                  ground (arith, kept, (granted_found ref c e).at (client.get_cluster ref w).1 kept)
              | inr (inl q) ↦ ground (arith, kept)
              | inr (inr (m, q)) ↦ ground (arith, kept)
            ]
      ];
    }
