-- ===== src/Scheduler/State.antt =====
-- What the parts of the scheduler share: the reconcile result, changes of the objects, and the
-- guards of a call.
use openmcp_operator.Prelude.{ℕ, zero, suc, String, Option, none, some, List, [], ◌∷◌}
use openmcp_operator.Flow.{
  Exec, pure, finish, crash, ask, ◌>>=◌, Answer, found, not_found, failed, Reason, ReconcileError,
  with_reason,
}
use openmcp_operator.Api.Meta.{key_of}
use openmcp_operator.Api.Cluster.{Cluster}
use openmcp_operator.Api.Requests.{ClusterRequest}
use openmcp_operator.Config.Labels.{Labels}
use openmcp_operator.Config.Scheduler.{SchedulerConfig}
use openmcp_operator.Platform.{Client}

-- `ctrlutils.ReconcileResult` of a ClusterRequest.
pub record ReconcileResult : Type 0 where
  pub object : Option ClusterRequest
  pub old_object : Option ClusterRequest
  pub error : ReconcileError

abbrev pub empty_result : ReconcileResult
empty_result = record { object = none; old_object = none; error = none }

abbrev pub error_result : String → Reason → ReconcileResult
error_result m r = record empty_result { error = with_reason m r }

-- `rr` with its object and the copy from before the changes.
abbrev pub result : ClusterRequest → ClusterRequest → ReconcileError → ReconcileResult
result cr old e = record { object = some cr; old_object = some old; error = e }

abbrev pub with_finalizers : Cluster → List String → Cluster
with_finalizers c fins = record c { metadata = record c.metadata { finalizers = fins } }

abbrev pub with_request_finalizers : ClusterRequest → List String → ClusterRequest
with_request_finalizers cr fins = record cr { metadata = record cr.metadata { finalizers = fins } }

-- `rr.Object.Status.Cluster = ...`.
abbrev pub with_cluster : ClusterRequest → Cluster → ClusterRequest
with_cluster cr c = record cr { status = record cr.status { cluster = some (key_of c.metadata) } }

module _ {labels : Labels} (client : Client labels) where
  abbrev pub Action : Type 0 → Type 0
  Action A = Exec client.World ReconcileResult A

  -- `if err != nil { rr.ReconcileError = ...; return rr }` behind a call that has to succeed.
  abbrev pub need : {A : Type 0} → Answer A → ReconcileResult → Action A
  need (found a) r = pure a
  need not_found r = finish r
  need (failed e) r = finish r

  -- A nil dereference panics.
  abbrev pub deref : {A : Type 0} → Option A → Action A
  deref none = crash
  deref (some a) = pure a

  -- `r.GetConfigFunc(ctx)`, with the result for its error.
  abbrev pub config_or : ReconcileResult → Action (SchedulerConfig labels)
  config_or r = do ans ← ask client.get_config; elim ans [ none ↦ finish r | some cfg ↦ deref cfg ]

  -- `clusters[i]`, which panics out of range.
  abbrev pub at_index : List Cluster → ℕ → Action Cluster
  at_index [] i = crash
  at_index (c ∷ cs) zero = pure c
  at_index (c ∷ cs) (suc i) = at_index cs i
