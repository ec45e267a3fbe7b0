-- ===== src/Scheduler/Reconcile/Create.antt =====
-- `handleCreateOrUpdate` writes only what it may, and its result without an error is a grant.
use openmcp_operator.Prelude.{
  String, Option-cases, any_of, insert, Option, none, some, List, [], ◌∷◌, Bool, true, false, ◌==◌,
  ◌≡◌, refl, inl, inr, arith,
}
use openmcp_operator.Flow.{Answer-cases}
use openmcp_operator.Flow.Run.{Run, Run-pure, Run-crash, Run-bind}
use openmcp_operator.Api.Meta.{key_of, ObjectReference}
use openmcp_operator.Api.Cluster.{Cluster, get_tenancy_count}
use openmcp_operator.Api.Requests.{ClusterRequest, finalizer_for_cluster}
use openmcp_operator.Config.Labels.{Labels}
use openmcp_operator.Config.Scheduler.{ClusterDefinition}
use openmcp_operator.Platform.{Library, LibraryLaws, Client}
use openmcp_operator.Scheduler.State.{with_finalizers, Action, result, with_cluster}
use openmcp_operator.Scheduler.Writes.{Keeps}
use openmcp_operator.Scheduler.Granted.{ensure_finalizer, check_granted}
use openmcp_operator.Scheduler.Select.{get_definition, claim_cluster}
use openmcp_operator.Scheduler.Make.{merge_cluster, find_conflict, take_over, make_cluster}
use openmcp_operator.Scheduler.Naming.{initialize_new_cluster}
use openmcp_operator.Scheduler.Naming.Laws.{initialize_new_cluster_claimed}
use openmcp_operator.Scheduler.Reconcile.{
  phase_of, handle_create_or_update, choose_unless_lost, claim_or_make,
}
use openmcp_operator.Scheduler.Reconcile.Granted.{
  Settled, may_create, Settles, added_keeps, ensure_finalizer-Settles, check_granted-Settles,
}
use openmcp_operator.Scheduler.Reconcile.Choice.{get_definition-Settles, choose_cluster-Settles}

module _ {labels : Labels} (lib : Library) (laws : LibraryLaws lib) (client : Client labels)
    {P : client.World → Type 0} (keeps : Keeps client may_create P) where
  abbrev Goal : {A : Type 0} → Action client A → Type 0
  Goal = Settles lib laws client keeps

  module _ (old cr : ClusterRequest) where
    claim_cluster-Settles : (c : Cluster) → Goal (claim_cluster lib client old cr c)
    unfolding claim_cluster
    claim_cluster-Settles c = record {
      at = λ w p.
          let fins = (lib.add_finalizer c.finalizers (finalizer_for_cluster cr)).0 in
          ground (
            arith,
            keeps.patch_cluster c (with_finalizers c fins) w
                (
                  refl,
                  added_keeps lib laws client keeps old cr c.finalizers (finalizer_for_cluster cr),
                )
                p,
          );
    }

    find_conflict-Settles :
        (fins : List String) (conflict listed : Bool) (removals : List String)
        → Goal (find_conflict lib client old cr fins conflict listed removals)
    unfolding find_conflict
    find_conflict-Settles [] conflict listed removals = Run-pure (conflict, removals) tt
    find_conflict-Settles (f ∷ fins) conflict listed removals = record {
      at = λ w p.
          let kept = keeps.list_requests w p in
          let skip = (find_conflict-Settles fins conflict listed removals).at w p in
          elim (Answer-cases (client.list_requests w).0) [
            | inl (crs, q) ↦ ground (
              arith,
              kept,
              skip,
              (find_conflict-Settles fins (any_of (λ ecr. f == finalizer_for_cluster ecr) crs) true
                    (insert f removals)).at
                  (client.list_requests w).1 kept,
            )
            | inr (inl q) ↦ ground (arith, kept, skip)
            | inr (inr (m, q)) ↦ ground (arith, kept, skip)
          ];
    }

    take_over-Settles : (c existing : Cluster) → Goal (take_over lib client old cr c existing)
    unfolding take_over
    take_over-Settles c existing =
        Run-bind (find_conflict lib client old cr existing.finalizers false false []) _
          (find_conflict-Settles existing.finalizers false false [])
          λ r _. record {
            at = λ w p.
                ground (
                  arith,
                  keeps.update_cluster (merge_cluster lib client old existing c r.1) w tt p,
                );
          }

    after_lookup :
        (d : ClusterDefinition labels) (lost : Option ObjectReference) (c : Cluster)
        → initialize_new_cluster lib d cr lost ≡ some c
        → get_tenancy_count c ≡ 1
    after_lookup d lost c e = (initialize_new_cluster_claimed lib d cr lost c e).1

    make_cluster-Settles :
        (d : Option (ClusterDefinition labels)) (lost : Option ObjectReference)
        → Goal (make_cluster lib client old cr d lost)
    unfolding make_cluster
    make_cluster-Settles none lost = Run-crash
    make_cluster-Settles (some d) lost = record {
      at = λ w p. elim (Option-cases (initialize_new_cluster lib d cr lost)) [
        | inl e ↦ ground arith
        | inr (c, e) ↦
            let ref = key_of c.metadata in
            let w1 = (client.get_cluster ref w).1 in
            let kept = keeps.get_cluster ref w p in
            elim (Answer-cases (client.get_cluster ref w).0) [
              | inl (existing, q) ↦ ground (arith, kept, (take_over-Settles c existing).at w1 kept)
              | inr (inl q) ↦
                  ground (arith, kept, keeps.create_cluster c w1 (after_lookup d lost c e) kept)
              | inr (inr (m, q)) ↦ ground (arith, kept)
            ]
      ];
    }

    choose_unless_lost-Settles :
        (d : Option (ClusterDefinition labels)) (lost : Option ObjectReference)
        → Goal (choose_unless_lost lib client old cr d lost)
    unfolding choose_unless_lost
    choose_unless_lost-Settles d none = choose_cluster-Settles lib laws client keeps old cr d
    choose_unless_lost-Settles d (some r) = Run-pure none tt

    claim_or_make-Settles :
        (d : Option (ClusterDefinition labels)) (lost : Option ObjectReference)
        → (chosen : Option Cluster) → Goal (claim_or_make lib client old cr d lost chosen)
    unfolding claim_or_make
    claim_or_make-Settles d lost none = make_cluster-Settles d lost
    claim_or_make-Settles d lost (some c) = claim_cluster-Settles c

  -- Whatever the server answers: `handleCreateOrUpdate` keeps every property of the world that its
  -- allowed writes keep (a patch keeps the spec and all finalizers of a cluster, a created cluster
  -- counts one request, no cluster is deleted), and its result has an error or the phase `Granted`.
  pub handle_create_or_update_settles :
      (old : ClusterRequest) → Run P (handle_create_or_update lib client old) Settled Settled
  unfolding handle_create_or_update phase_of
  handle_create_or_update_settles old =
      Run-bind (ensure_finalizer lib client old old) _
        (ensure_finalizer-Settles lib laws client keeps old old)
        λ cr _.
          Run-bind (check_granted lib client old cr) _
            (check_granted-Settles lib laws client keeps old cr)
            λ lost _.
              Run-bind (get_definition lib client old cr) _
                (get_definition-Settles lib laws client keeps old cr)
                λ d _.
                  Run-bind (choose_unless_lost lib client old cr d lost) _
                    (choose_unless_lost-Settles old cr d lost)
                    λ chosen _.
                      Run-bind (claim_or_make lib client old cr d lost chosen) _
                        (claim_or_make-Settles old cr d lost chosen)
                        λ c _. Run-pure (result (with_cluster cr c) old none) (inr refl)
