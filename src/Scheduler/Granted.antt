-- ===== src/Scheduler/Granted.antt =====
-- The first steps of `handleCreateOrUpdate`: the finalizer of the request, and the request that
-- has its cluster already.
pub mod Laws
use openmcp_operator.Prelude.{
  Option, none, some, [], ◌∷◌, Bool, true, false, not, ◌&&◌, ◌==◌, starts_with, if◌then◌else◌,
}
use openmcp_operator.Flow.{
  pure, finish, ask, ◌>>=◌, ◌>>◌, found, not_found, failed, platform_cluster_interaction_problem,
  with_reason,
}
use openmcp_operator.Api.Meta.{
  Dict, GoMap, ObjectReference, get, or_empty, put, items, metadata_prefix,
  cluster_request_finalizer, tenancy_exclusive,
}
use openmcp_operator.Api.Cluster.{Cluster}
use openmcp_operator.Api.Requests.{ClusterRequest, finalizer_for_cluster}
use openmcp_operator.Config.Labels.{Labels}
use openmcp_operator.Platform.{Library, Client}
use openmcp_operator.Scheduler.State.{
  result, with_finalizers, with_request_finalizers, Action, need, deref,
}

-- The loop that brings the entries with the metadata prefix up to date, with the flag `update`.
-- `none` is the panic of a write to a nil map.
unfoldable pub sync_metadata : Dict → GoMap → Bool → Option (GoMap × Bool)
sync_metadata [] target update = some (target, update)
sync_metadata ((k, v) ∷ rest) target update =
    let skip = sync_metadata rest target update in
    if starts_with k metadata_prefix && not (or_empty (get k target) == v)
    then elim target [ none ↦ none | some m ↦ sync_metadata rest (some (put k v m)) true ]
    else skip

module _ {labels : Labels} (lib : Library) (client : Client labels) (old : ClusterRequest) where
  unfoldable pub ensure_finalizer : ClusterRequest → Action client ClusterRequest
  ensure_finalizer cr =
      let (fins, changed) = lib.add_finalizer cr.finalizers cluster_request_finalizer in
      let cr' = with_request_finalizers cr fins in
      if changed
      then (do
        ans ← ask (client.patch_request old cr')
        need client ans (
            result cr' old (
              with_reason "error patching finalizer on resource"
                platform_cluster_interaction_problem)))
      else pure cr'

  -- `RequestFinalizerOnClusterPrefix` of the request on the cluster that its status names.
  unfoldable pub mark_cluster : ClusterRequest → Cluster → Action client Cluster
  mark_cluster cr c =
      let fin = finalizer_for_cluster cr in
      if lib.contains_finalizer c.finalizers fin then pure c else (do
        ans ←
            ask (client.patch_cluster c (with_finalizers c (lib.add_finalizer c.finalizers fin).0))
        need client ans (
            result cr old (
              with_reason "error patching finalizer on cluster"
                platform_cluster_interaction_problem)))

  -- Metadata of the request on its exclusive cluster.
  unfoldable pub propagate_metadata : ClusterRequest → Cluster → Action client Unit
  unfolding sync_metadata
  propagate_metadata cr c = if not (c.spec.tenancy == tenancy_exclusive) then pure tt else (do
    (annotations, changed) ← deref client (sync_metadata (items cr.annotations) c.annotations false)
    (labels', update) ← deref client (sync_metadata (items cr.labels) c.labels changed)
    if not update then pure tt else (do
      ans ← ask (
          client.patch_cluster c (record c {
            metadata = record c.metadata { annotations = annotations; labels = labels' };
          }))
      need client ans (
          result cr old
            (with_reason "error patching Cluster metadata" platform_cluster_interaction_problem))
      pure tt))

  -- A request that is granted returns here while its cluster exists; else the reference to the
  -- cluster that is gone, if there is one, goes on.
  unfoldable pub check_granted : ClusterRequest → Action client (Option ObjectReference)
  check_granted cr = elim cr.status.cluster [
    | none ↦ pure none
    | some ref ↦ do
      ans ← ask (client.get_cluster ref)
      elim ans [
        | found c ↦ (do
          c' ← mark_cluster cr c
          propagate_metadata cr c'
          finish (result cr old none))
        | not_found ↦ pure (some ref)
        | failed e ↦ finish (
            result cr old (
              with_reason "error checking whether cluster exists"
                platform_cluster_interaction_problem))
      ]
  ]
