-- ===== src/Scheduler/Delete.antt =====
-- `handleDelete`: the finalizers of the request are removed, and clusters without requests deleted.
pub mod Releases
pub mod Complete
use openmcp_operator.Prelude.{
  String, none, some, List, [], ◌∷◌, ◌++◌, eqb, ◌&&◌, contains, select, if◌then◌else◌,
}
use openmcp_operator.Flow.{
  pure, ask, ◌>>=◌, ◌>>◌, found, not_found, failed, platform_cluster_interaction_problem,
  configuration_problem, ReconcileError, with_reason, Failure,
}
use openmcp_operator.Api.Meta.{delete_without_requests_label, cluster_request_finalizer}
use openmcp_operator.Api.Cluster.{Cluster, get_tenancy_count}
use openmcp_operator.Api.Requests.{ClusterRequest, finalizer_for_cluster}
use openmcp_operator.Config.Labels.{Labels}
use openmcp_operator.Config.Selector.{completed}
use openmcp_operator.Platform.{Library, Client}
use openmcp_operator.Scheduler.State.{
  ReconcileResult, result, with_finalizers, with_request_finalizers, Action, need, config_or,
}

-- `errs.Aggregate()`: nil for no errors.
abbrev pub aggregate : List Failure → ReconcileError
aggregate [] = none
aggregate (e ∷ es) = some (e ∷ es)

abbrev pub patch_failure : Failure
patch_failure = record {
  reason = platform_cluster_interaction_problem;
  message = "error patching finalizer on cluster";
}

abbrev pub delete_failure : Failure
delete_failure = record {
  reason = platform_cluster_interaction_problem;
  message = "error deleting cluster";
}

module _ {labels : Labels} (lib : Library) (client : Client labels) where
  -- The finalizer is removed and the cluster patched; after a failed patch the code goes on with
  -- the object in memory, which lacks the finalizer.
  unfoldable pub release_cluster :
      String → Cluster → client.World → (Cluster × List Failure) × client.World
  release_cluster fin c w =
      let (fins, changed) = lib.remove_finalizer c.finalizers fin in
      let c' = with_finalizers c fins in
      if changed
      then elim (client.patch_cluster c c' w).0 [
        | found d ↦ ((d, []), (client.patch_cluster c c' w).1)
        | not_found ↦ ((c', patch_failure ∷ []), (client.patch_cluster c c' w).1)
        | failed e ↦ ((c', patch_failure ∷ []), (client.patch_cluster c c' w).1)
      ]
      else ((c', []), w)

  -- A cluster without requests that carries the label is deleted.
  unfoldable pub delete_if_unused : Cluster → client.World → List Failure × client.World
  delete_if_unused c w =
      if eqb (get_tenancy_count c) 0
        && lib.has_label_with_value c.labels delete_without_requests_label "true"
      then elim (client.delete_cluster c w).0 [
        | found _ ↦ ([], (client.delete_cluster c w).1)
        | not_found ↦ ([], (client.delete_cluster c w).1)
        | failed e ↦ (delete_failure ∷ [], (client.delete_cluster c w).1)
      ]
      else ([], w)

  -- One round of the loop.
  unfoldable pub remove_from : String → Cluster → client.World → List Failure × client.World
  remove_from fin c w =
      let released = release_cluster fin c w in
      let deleted = delete_if_unused released.0.0 released.1 in
      (released.0.1 ++ deleted.0, deleted.1)

  -- The loop over the clusters, with the errors of all rounds.
  unfoldable pub remove_from_all :
      String → List Cluster → client.World → List Failure × client.World
  remove_from_all fin [] w = ([], w)
  remove_from_all fin (c ∷ cs) w =
      let round = remove_from fin c w in
      let rest = remove_from_all fin cs round.1 in (round.0 ++ rest.0, rest.1)

  -- The finalizer of the request itself; the result has no object afterwards.
  unfoldable pub remove_request_finalizer : ClusterRequest → Action client ReconcileResult
  remove_request_finalizer cr =
      let (fins, changed) = lib.remove_finalizer cr.finalizers cluster_request_finalizer in
      let cr' = with_request_finalizers cr fins in
      let done : ReconcileResult = record { object = none; old_object = some cr; error = none } in
      if changed
      then (do
        ans ← ask (client.patch_request cr cr')
        need client ans (
            result cr' cr (
              with_reason "error removing finalizer from resource"
                platform_cluster_interaction_problem))
        pure done)
      else pure done

  -- With errors of the loop the finalizer of the request stays.
  unfoldable pub finish_delete : ClusterRequest → List Failure → Action client ReconcileResult
  finish_delete cr [] = remove_request_finalizer cr
  finish_delete cr (e ∷ es) = pure (result cr cr (aggregate (e ∷ es)))

  unfoldable pub handle_delete : ClusterRequest → Action client ReconcileResult
  handle_delete cr = do
    cfg ←
        config_or client
          (result cr cr (with_reason "error fetching scheduler config" configuration_problem))
    ans ← ask (client.list_clusters "" (completed labels cfg.cluster_selector))
    clusters ←
        need client ans
          (result cr cr (with_reason "error listing Clusters" platform_cluster_interaction_problem))
    errs ← ask (
        remove_from_all (finalizer_for_cluster cr)
          (select (λ c. contains c.finalizers (finalizer_for_cluster cr)) clusters))
    finish_delete cr errs
