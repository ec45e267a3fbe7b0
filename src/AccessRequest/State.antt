-- ===== src/AccessRequest/State.antt =====
-- What the controller of AccessRequests calls, and its result.
use openmcp_operator.Prelude.{ℕ, ℤ, pos, String, Option, none, some, Bool, if◌then◌else◌}
use openmcp_operator.Flow.{Exec, pure, finish, Answer, found, not_found, failed, ReconcileError}
use openmcp_operator.Api.Meta.{ObjectReference}
use openmcp_operator.Api.Cluster.{Cluster}
use openmcp_operator.Api.Requests.{AccessRequest, ClusterRequest}

-- `ClusterProfile`: its name, and the name in `spec.providerRef`.
pub record ClusterProfile : Type 0 where
  pub name : String
  pub provider_ref : String

-- The client of the platform cluster, and the clock, in nanoseconds since the epoch.
pub record AccessClient : Type 1 where
  pub World : Type 0
  pub get_access_request : ObjectReference → World → Answer AccessRequest × World
  pub get_request : ObjectReference → World → Answer ClusterRequest × World
  pub get_cluster : ObjectReference → World → Answer Cluster × World
  pub get_profile : String → World → Answer ClusterProfile × World
  pub patch_access_request : AccessRequest → AccessRequest → World → Answer AccessRequest × World
  pub delete_access_request : AccessRequest → World → Answer (Unit {0}) × World
  pub remove_operation_annotation : AccessRequest → World → Answer AccessRequest × World
  pub now : World → ℕ × World

-- `ctrlutils.ReconcileResult` of an AccessRequest.
pub record AccessResult : Type 0 where
  pub object : Option AccessRequest
  pub requeue_after : ℤ
  pub error : ReconcileError

abbrev pub no_result : AccessResult
no_result = record { object = none; requeue_after = pos 0; error = none }

-- The result with the object, unless only the TTL is checked.
abbrev pub access_result : Bool → ℤ → AccessRequest → ReconcileError → AccessResult
access_result ttl_check_only requeue ar e = record {
  object = if ttl_check_only then none else some ar;
  requeue_after = requeue;
  error = e;
}

module _ (client : AccessClient) where
  abbrev pub AccessAction : Type 0 → Type 0
  AccessAction A = Exec client.World AccessResult A

  -- A call that has to succeed, with the results for a missing object and for another error.
  abbrev pub fetched : {A : Type 0} → Answer A → AccessResult → AccessResult → AccessAction A
  fetched (found a) r s = pure a
  fetched not_found r s = finish r
  fetched (failed e) r s = finish s
