-- ===== src/ControlPlane/Reconcile.antt =====
-- `Reconcile` and `reconcile` of the ManagedControlPlane controller, without the writing of the
-- status, which controller-utils does.
use openmcp_operator.Prelude.{
  String, Option, none, some, List, [], ◌∷◌, Bool, true, ◌==◌, ◌&&◌, is_some, if◌then◌else◌,
}
use openmcp_operator.Flow.{
  pure, finish, ◌>>=◌, found, not_found, failed, with_reason,
  onboarding_cluster_interaction_problem,
}
use openmcp_operator.Api.Meta.{
  ObjectReference, get, operation_annotation, operation_ignore, operation_reconcile,
}
use openmcp_operator.Api.Conditions.{
  Condition, condition_true, status_phase_ready, status_phase_progressing, status_phase_terminating,
}
use openmcp_operator.Api.ControlPlane.{ControlPlane}
use openmcp_operator.Platform.{Library}
use openmcp_operator.ControlPlane.State.{
  SmartRequeue, sr_no_requeue, sr_backoff, sr_other, ControlPlaneResult, ControlPlaneLibrary,
  ControlPlaneClient, Action, call,
}
use openmcp_operator.ControlPlane.Shared.{empty_result}
use openmcp_operator.ControlPlane.Delete.{handle_delete}
use openmcp_operator.ControlPlane.Create.{handle_create_or_update}

-- `conditions.AllConditionsHaveStatus(metav1.ConditionTrue, ...)`.
unfoldable pub all_true : List Condition → Bool
all_true [] = true
all_true (con ∷ cons) = con.status == condition_true && all_true cons

-- The phase that is reported.
unfoldable pub phase_of : ControlPlaneResult → String
phase_of rr = elim rr.object [
  | none ↦ status_phase_progressing
  | some mcp ↦
      if is_some mcp.deletion_timestamp
      then status_phase_terminating
      else if all_true mcp.status.conditions
      then status_phase_ready
      else status_phase_progressing
]

-- The requeue behind the status update; a nil object panics where no requeue is planned.
unfoldable pub smart_requeue : ControlPlaneResult → Option SmartRequeue
smart_requeue rr = elim rr.smart_requeue [
  | sr_no_requeue ↦ elim rr.object [
    | none ↦ none
    | some mcp ↦
        if mcp.status.phase == status_phase_ready then some sr_no_requeue else some sr_backoff
  ]
  | sr_backoff ↦ some sr_backoff
  | sr_other ↦ some sr_other
]

module _ (lib : Library) (cp : ControlPlaneLibrary) (client : ControlPlaneClient) where
  -- The operation annotation: ignored, or removed before the ControlPlane is handled.
  unfoldable pub handle_annotation : ControlPlane → Action client ControlPlane
  handle_annotation mcp = elim (get operation_annotation mcp.annotations) [
    | none ↦ pure mcp
    | some op ↦
        if op == operation_ignore
        then finish (empty_result cp)
        else if op == operation_reconcile
        then (do
          ans ← call client (client.remove_operation_annotation mcp)
          elim ans [
            | found m ↦ pure m
            | not_found ↦ finish (record (empty_result cp) {
              error =
                  with_reason "error removing operation annotation"
                    onboarding_cluster_interaction_problem;
            })
            | failed e ↦ finish (record (empty_result cp) {
              error =
                  with_reason "error removing operation annotation"
                    onboarding_cluster_interaction_problem;
            })
          ])
        else pure mcp
  ]

  unfoldable pub reconcile : ObjectReference → Action client ControlPlaneResult
  reconcile req = do
    got ← call client (client.get_control_plane req)
    elim got [
      | found mcp0 ↦ (do
        mcp ← handle_annotation mcp0
        if is_some mcp.deletion_timestamp
            then handle_delete lib cp client mcp
            else handle_create_or_update lib cp client mcp)
      | not_found ↦ pure (empty_result cp)
      | failed e ↦ pure (record (empty_result cp) {
        error = with_reason "unable to get resource" onboarding_cluster_interaction_problem;
      })
    ]
