-- ===== src/Scheduler/Make.antt =====
-- The end of `handleCreateOrUpdate`: a cluster that is made for the request, with the check for
-- conflicts.
pub mod Conflicts
use openmcp_operator.Prelude.{
  String, Option, none, some, List, [], ◌∷◌, Bool, true, false, not, ◌&&◌, ◌==◌, contains, select,
  any_of, insert, insert_all, starts_with, if◌then◌else◌,
}
use openmcp_operator.Flow.{
  pure, finish, ask, ◌>>=◌, ◌>>◌, found, not_found, failed, platform_cluster_interaction_problem,
  internal_error, cluster_conflict, with_reason,
}
use openmcp_operator.Api.Meta.{ObjectReference, key_of, request_finalizer_on_cluster_prefix}
use openmcp_operator.Api.Cluster.{Cluster}
use openmcp_operator.Api.Requests.{ClusterRequest, finalizer_for_cluster}
use openmcp_operator.Config.Labels.{Labels}
use openmcp_operator.Config.Scheduler.{ClusterDefinition}
use openmcp_operator.Platform.{Library, Client}
use openmcp_operator.Scheduler.Naming.{initialize_new_cluster}
use openmcp_operator.Scheduler.State.{result, Action, need, deref}

module _ {labels : Labels} (lib : Library) (client : Client labels) (old : ClusterRequest) where
  -- The loop over the finalizers of a cluster with the wanted name: whether it conflicts, and the
  -- finalizers to remove. `listed` is `crs != nil`; the requests are compared only in the round
  -- that lists them, and `found` is never set.
  unfoldable pub find_conflict :
      ClusterRequest → List String → Bool → Bool → List String → Action client (Bool × List String)
  find_conflict cr [] conflict listed removals = pure (conflict, removals)
  find_conflict cr (cfin ∷ fins) conflict listed removals =
      let skip = find_conflict cr fins conflict listed removals in
      let check = do
        ans ← ask client.list_requests
        crs ← need client ans (
            result cr old (
              with_reason "error listing ClusterRequests to check for conflicts"
                platform_cluster_interaction_problem))
        find_conflict cr fins (any_of (λ ecr. cfin == finalizer_for_cluster ecr) crs) true
            (insert cfin removals)
      in if cfin == finalizer_for_cluster cr
        then pure (false, removals)
        else if not conflict && starts_with cfin request_finalizer_on_cluster_prefix && not listed
        then check
        else skip

  -- The existing cluster with finalizers, labels and annotations merged and the spec replaced.
  unfoldable pub merge_cluster : Cluster → Cluster → List String → Cluster
  merge_cluster existing c removals =
      let kept = select (λ f. not (contains removals f)) (insert_all existing.finalizers []) in
      record existing {
        metadata = record existing.metadata {
          finalizers = lib.set_list (insert_all c.finalizers kept);
          labels = lib.merge existing.labels c.labels;
          annotations = lib.merge existing.annotations c.annotations;
        };
        spec = c.spec;
      }

  -- An existing cluster with the wanted name is taken over unless it conflicts.
  unfoldable pub take_over : ClusterRequest → Cluster → Cluster → Action client Cluster
  take_over cr c existing = do
    (conflict, removals) ← find_conflict cr existing.finalizers false false []
    if conflict
        then finish (result cr old (with_reason "cluster already exists" cluster_conflict))
        else (do
          ans ← ask (client.update_cluster (merge_cluster existing c removals))
          need client ans (
              result cr old (
                with_reason "error updating existing cluster" platform_cluster_interaction_problem))
          pure c)

  -- The branch that makes a new cluster; the server's answer to `Create` has the final name.
  unfoldable pub make_cluster :
      ClusterRequest
      → Option (ClusterDefinition labels)
      → Option ObjectReference
      → Action client Cluster
  make_cluster cr c_def lost = do
    d ← deref client c_def
    c ← elim (initialize_new_cluster lib d cr lost) [
      | none ↦ finish (result cr old (with_reason "error initializing new cluster" internal_error))
      | some c ↦ pure c
    ]
    ans ← ask (client.get_cluster (key_of c.metadata))
    elim ans [
      | found existing ↦ take_over cr c existing
      | not_found ↦ (do
        created ← ask (client.create_cluster c)
        need client created (
            result cr old
              (with_reason "error creating cluster" platform_cluster_interaction_problem)))
      | failed e ↦ finish (
          result cr old (
            with_reason "error checking whether cluster exists"
              platform_cluster_interaction_problem))
    ]
