-- ===== src/Scheduler/Reconcile.antt =====
-- `handleCreateOrUpdate` as a whole, `reconcile` and the phase of the request.
pub mod Granted
pub mod Choice
pub mod Create
use openmcp_operator.Prelude.{String, Option, none, some, ◌==◌, is_some, if◌then◌else◌}
use openmcp_operator.Flow.{
  pure, finish, ask, ◌>>=◌, found, not_found, failed, platform_cluster_interaction_problem,
}
use openmcp_operator.Api.Meta.{
  request_pending, request_granted, operation_annotation, operation_ignore, operation_reconcile,
  ObjectReference, get,
}
use openmcp_operator.Api.Cluster.{Cluster}
use openmcp_operator.Api.Requests.{ClusterRequest}
use openmcp_operator.Config.Labels.{Labels}
use openmcp_operator.Config.Scheduler.{ClusterDefinition}
use openmcp_operator.Platform.{Library, Client}
use openmcp_operator.Scheduler.Granted.{ensure_finalizer, check_granted}
use openmcp_operator.Scheduler.Select.{get_definition, choose_cluster, claim_cluster}
use openmcp_operator.Scheduler.Make.{make_cluster}
use openmcp_operator.Scheduler.Delete.{handle_delete}
use openmcp_operator.Scheduler.State.{
  ReconcileResult, empty_result, error_result, result, with_cluster, Action, need,
}

module _ {labels : Labels} (lib : Library) (client : Client labels) (old : ClusterRequest) where
  choose_unless_lost :
      ClusterRequest
      → Option (ClusterDefinition labels)
      → Option ObjectReference
      → Action client (Option Cluster)
  choose_unless_lost cr c_def none = choose_cluster lib client old cr c_def
  choose_unless_lost cr c_def (some _) = pure none

  claim_or_make :
      ClusterRequest
      → Option (ClusterDefinition labels)
      → Option ObjectReference
      → Option Cluster
      → Action client Cluster
  claim_or_make cr c_def lost (some c) = claim_cluster lib client old cr c
  claim_or_make cr c_def lost none = make_cluster lib client old cr c_def lost

  unfoldable pub handle_create_or_update : Action client ReconcileResult
  unfolding choose_unless_lost claim_or_make
  handle_create_or_update = do
    cr ← ensure_finalizer lib client old old
    lost ← check_granted lib client old cr
    c_def ← get_definition lib client old cr
    chosen ← choose_unless_lost cr c_def lost
    c ← claim_or_make cr c_def lost chosen
    pure (result (with_cluster cr c) old none)

-- The phase that the status updater writes.
unfoldable pub phase_of : ReconcileResult → String
phase_of rr = elim rr.error [
  | some _ ↦ request_pending
  | none ↦ elim rr.object [
    | none ↦ request_pending
    | some cr ↦ if is_some cr.status.cluster then request_granted else request_pending
  ]
]

module _ {labels : Labels} (lib : Library) (client : Client labels) where
  -- The operation annotation: `ignore` ends here, `reconcile` is removed.
  handle_annotation : ClusterRequest → Action client ClusterRequest
  handle_annotation cr = elim (get operation_annotation cr.annotations) [
    | none ↦ pure cr
    | some op ↦
        if op == operation_ignore
        then finish empty_result
        else if op == operation_reconcile
        then (do
          ans ← ask (client.remove_operation_annotation cr)
          need client ans (
              error_result "error removing operation annotation"
                platform_cluster_interaction_problem))
        else pure cr
  ]

  unfoldable pub reconcile : ObjectReference → Action client ReconcileResult
  unfolding handle_annotation
  reconcile req = do
    ans ← ask (client.get_request req)
    elim ans [
      | found cr ↦ (do
        cr' ← handle_annotation cr
        if is_some cr'.deletion_timestamp
            then handle_delete lib client cr'
            else handle_create_or_update lib client cr')
      | not_found ↦ pure empty_result
      | failed e ↦ pure (error_result "unable to get resource" platform_cluster_interaction_problem)
    ]
