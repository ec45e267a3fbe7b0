-- ===== src/ControlPlane/State.antt =====
-- What the parts of the ManagedControlPlane controller share
-- (internal/controllers/controlplane/controller.go): the clients of the two clusters, the helpers of
-- the libraries, the reconcile result while it is made, and conditions.
use openmcp_operator.Prelude.{
  ℕ, ℤ, pos, negsuc, suc, ◌-◌, ltb, String, Option, none, some, List, [], ◌∷◌, ◌++◌, Bool,
  if◌then◌else◌,
}
use Prim.Native.Nat.{◌*◌, ◌%◌}
use openmcp_operator.Flow.{
  Exec, Outcome, next, stop, panic, pure, finish, ◌>>◌, Answer, found, not_found, failed, Reason,
  Failure, ReconcileError,
}
use openmcp_operator.Api.Meta.{Dict, ObjectReference}
use openmcp_operator.Api.Conditions.{Condition, condition_false}
use openmcp_operator.Api.Cluster.{Cluster}
use openmcp_operator.Api.Requests.{ClusterRequest, AccessRequest}
use openmcp_operator.Api.ControlPlane.{
  ControlPlane, ServiceProvider, ServiceResource, Secret, Namespace,
}
use openmcp_operator.Config.ControlPlane.{ControlPlaneConfig}

-- `ctrlutils.SmartRequeueAction`.
pub data SmartRequeue : Type 0 where
  sr_no_requeue sr_backoff sr_other : SmartRequeue

-- `ctrlutils.ReconcileResult` of a ControlPlane; `requeue_after` is in nanoseconds.
pub record ControlPlaneResult : Type 0 where
  pub object : Option ControlPlane
  pub old_object : Option ControlPlane
  pub conditions : List Condition
  pub conditions_to_remove : List String
  pub requeue_after : ℤ
  pub smart_requeue : SmartRequeue
  pub error : ReconcileError

-- Helpers of the libraries: the reason and the message of an error, `meta.IsNoMatchError`,
-- `controller.K8sNameUUID`, `strings.ReplaceAll`, `controllerutil.SetControllerReference` (`none` is
-- its error), `strings.TrimSuffix`, and the zero value of `SmartRequeueAction`.
pub record ControlPlaneLibrary : Type 0 where
  pub error_reason : List Failure → String
  pub error_message : List Failure → String
  pub is_no_match_error : String → Bool
  pub k8s_name_uuid : String → String → Option String
  pub replace_all : String → String → String → String
  pub trim_suffix : String → String → String
  pub set_controller_reference : ControlPlane → Secret → Option Secret
  pub smart_requeue_zero : SmartRequeue

-- The clients of the onboarding cluster (ControlPlanes, their namespaces, service resources, copied
-- secrets) and of the platform cluster (the rest). An `apply` is `controllerutil.CreateOrUpdate`
-- with the object's name and namespace and the function that changes it; a list has a namespace, a
-- label that must be there, and labels that must match. `range_order` is the order in which Go
-- ranges over a map.
pub record ControlPlaneClient : Type 1 where
  pub World : Type 0
  pub get_control_plane : ObjectReference → World → Answer ControlPlane × World
  pub patch_control_plane : ControlPlane → ControlPlane → World → Answer ControlPlane × World
  pub remove_operation_annotation : ControlPlane → World → Answer ControlPlane × World
  pub get_onboarding_namespace : String → World → Answer Namespace × World
  pub get_service : String → String → ObjectReference → World → Answer ServiceResource × World
  pub delete_service : ServiceResource → World → Answer (Unit {0}) × World
  pub list_secrets : String → String → Dict → World → Answer (List Secret) × World
  pub apply_secret : ObjectReference → (Secret → Option Secret) → World → Answer Secret × World
  pub delete_secret : Secret → World → Answer (Unit {0}) × World
  pub list_service_providers : World → Answer (List ServiceProvider) × World
  pub ensure_namespace : String → Dict → World → Answer (Unit {0}) × World
  pub get_namespace : String → World → Answer Namespace × World
  pub delete_namespace : Namespace → World → Answer (Unit {0}) × World
  pub get_request : ObjectReference → World → Answer ClusterRequest × World
  pub create_request : ClusterRequest → World → Answer ClusterRequest × World
  pub update_request : ClusterRequest → World → Answer ClusterRequest × World
  pub delete_request : ClusterRequest → World → Answer (Unit {0}) × World
  pub get_cluster : ObjectReference → World → Answer Cluster × World
  pub list_access_requests : String → String → Dict → World → Answer (List AccessRequest) × World
  pub apply_access_request :
      ObjectReference → (AccessRequest → AccessRequest) → World → Answer AccessRequest × World
  pub delete_access_request : AccessRequest → World → Answer (Unit {0}) × World
  pub get_secret : ObjectReference → World → Answer Secret × World
  pub get_config : World → Option ControlPlaneConfig × World
  pub range_order : {A : Type 0} → List A → World → List A × World

-- `int64` arithmetic wraps around.
abbrev wrap_64 : ℕ → ℤ
wrap_64 n = if ltb n 9223372036854775808 then pos n else negsuc (18446744073709551616 - 1 - n)

-- `time.Duration(days) * 24 * time.Hour`.
unfoldable pub days : ℤ → ℤ
days (pos n) = wrap_64 ((n * 86400000000000) % 18446744073709551616)
days (negsuc n) = wrap_64 (
    (18446744073709551616 - (suc n * 86400000000000) % 18446744073709551616) % 18446744073709551616)

-- The reconcile result while it is made: `rr`, whose object is the ControlPlane at hand.
pub record Draft : Type 0 where
  pub mcp : ControlPlane
  pub old_object : ControlPlane
  pub conditions : List Condition
  pub conditions_to_remove : List String
  pub requeue_after : ℤ
  pub smart_requeue : SmartRequeue

abbrev pub result_of : Draft → ReconcileError → ControlPlaneResult
result_of d e = record {
  object = some d.mcp;
  old_object = some d.old_object;
  conditions = d.conditions;
  conditions_to_remove = d.conditions_to_remove;
  requeue_after = d.requeue_after;
  smart_requeue = d.smart_requeue;
  error = e;
}

abbrev pub failure_of : String → Reason → List Failure
failure_of m r = record { reason = r; message = m } ∷ []

-- A value, or the error that is returned in its place.
pub data Attempt (A : Type 0) : Type 0 where
  done : A → Attempt A
  erred : List Failure → Attempt A

abbrev pub add_condition : String → String → String → String → Draft → Draft
add_condition type status reason message d = record d {
  conditions =
      d.conditions
      ++ record { con_type = type; status = status; reason = reason; message = message } ∷ [];
}

abbrev pub with_mcp : ControlPlane → Draft → Draft
with_mcp c d = record d { mcp = c }

abbrev pub with_finalizers : List String → ControlPlane → ControlPlane
with_finalizers fins c = record c { metadata = record c.metadata { finalizers = fins } }

module _ (client : ControlPlaneClient) where
  -- The world with the result so far.
  abbrev pub Stage : Type 0
  Stage = client.World × Draft

  -- An action of a handler returns early with the whole result.
  abbrev pub Action : Type 0 → Type 0
  Action A = Exec Stage ControlPlaneResult A

  -- An action of a helper returns early with an error.
  abbrev pub Step : Type 0 → Type 0
  Step A = Exec Stage (List Failure) A

  module _ {R : Type 0} where
    abbrev pub call : {A : Type 0} → (client.World → A × client.World) → Exec Stage R A
    call f s = (next (f s.0).0, ((f s.0).1, s.1))

    abbrev pub modify : (Draft → Draft) → Exec Stage R (Unit {0})
    modify f s = (next tt, (s.0, f s.1))

    abbrev pub draft : Exec Stage R Draft
    draft s = (next s.1, s)

    -- `createCon`.
    abbrev pub create_con : String → String → String → String → Exec Stage R (Unit {0})
    create_con type status reason message = modify (add_condition type status reason message)

  abbrev attempted :
      {A : Type 0} → Outcome (List Failure) A → Outcome ControlPlaneResult (Attempt A)
  attempted (next a) = next (done a)
  attempted (stop e) = next (erred e)
  attempted panic = panic

  -- A call of a helper by a handler, which goes on with its error.
  abbrev pub attempt : {A : Type 0} → Step A → Action (Attempt A)
  attempt m s = (attempted (m s).0, (m s).1)

  -- `return rr`, with its error.
  abbrev pub return_rr : {A : Type 0} → ReconcileError → Action A
  return_rr e s = (stop (result_of s.1 e), s)

  module _ (cp : ControlPlaneLibrary) where
    -- A condition that tells an error.
    abbrev pub error_con : {R : Type 0} → String → List Failure → Exec Stage R (Unit {0})
    error_con type e = create_con type condition_false (cp.error_reason e) (cp.error_message e)

    -- The error is recorded in a condition and returned.
    abbrev pub fail_con : {A : Type 0} → String → List Failure → Action A
    fail_con type e = do error_con type e; return_rr (some e)

    -- A call that has to succeed.
    abbrev pub need_con : {A : Type 0} → Answer A → String → List Failure → Action A
    need_con (found a) type e = pure a
    need_con not_found type e = fail_con type e
    need_con (failed m) type e = fail_con type e

  -- Waiting for something is recorded in a condition, and the request is put back.
  abbrev pub wait_con : {A : Type 0} → String → String → String → Action A
  wait_con type reason message = do
    create_con type condition_false reason message
    modify (λ d. record d { smart_requeue = sr_backoff })
    return_rr none

  -- `errs.Aggregate()` returned if it is not nil.
  abbrev pub no_errors : List Failure → Step (Unit {0})
  no_errors [] = pure tt
  no_errors (e ∷ es) = finish (e ∷ es)
