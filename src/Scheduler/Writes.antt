-- ===== src/Scheduler/Writes.antt =====
-- What the scheduler may write: a property of the world that reads keep, and that each kind of
-- write to a cluster keeps where the write is allowed. An action that keeps every such property
-- makes allowed writes only. The rules below go through the shared guards of the scheduler.
use openmcp_operator.Prelude.{ℕ, zero, suc, String, Option, none, some, List, [], ◌∷◌, ◌≡◌, refl}
use openmcp_operator.Flow.{ask, finish, ◌>>=◌, Answer, found, not_found, failed}
use openmcp_operator.Flow.Run.{Run, Run-pure, Run-finish, Run-crash, Run-bind, Run-ask}
use openmcp_operator.Api.Meta.{ObjectReference}
use openmcp_operator.Api.Cluster.{Cluster}
use openmcp_operator.Api.Requests.{ClusterRequest}
use openmcp_operator.Config.Labels.{Labels}
use openmcp_operator.Config.Scheduler.{SchedulerConfig}
use openmcp_operator.Platform.{Client}
use openmcp_operator.Scheduler.State.{ReconcileResult, need, deref, config_or, at_index}

-- Which writes are allowed.
pub record Allowed : Type 1 where
  pub patches : Cluster → Cluster → Type 0
  pub creates : Cluster → Type 0
  pub updates : Cluster → Type 0
  pub deletes : Cluster → Type 0

module _ {labels : Labels} (client : Client labels) where
  pub record Keeps (allowed : Allowed) (P : client.World → Type 0) : Type 0 where
    pub get_request : (r : ObjectReference) (w : client.World) → P w → P (client.get_request r w).1
    pub list_requests : (w : client.World) → P w → P (client.list_requests w).1
    pub patch_request :
        (a b : ClusterRequest) (w : client.World) → P w → P (client.patch_request a b w).1
    pub remove_operation_annotation :
        (a : ClusterRequest) (w : client.World) → P w → P (client.remove_operation_annotation a w).1
    pub get_cluster : (r : ObjectReference) (w : client.World) → P w → P (client.get_cluster r w).1
    pub list_clusters :
        (n : String) (s : labels.Compiled) (w : client.World)
        → P w
        → P (client.list_clusters n s w).1
    pub get_config : (w : client.World) → P w → P (client.get_config w).1
    pub rand_int_n : (n : ℕ) (w : client.World) → P w → P (client.rand_int_n n w).1
    pub patch_cluster :
        (c d : Cluster) (w : client.World)
        → allowed.patches c d
        → P w
        → P (client.patch_cluster c d w).1
    pub create_cluster :
        (c : Cluster) (w : client.World) → allowed.creates c → P w → P (client.create_cluster c w).1
    pub update_cluster :
        (c : Cluster) (w : client.World) → allowed.updates c → P w → P (client.update_cluster c w).1
    pub delete_cluster :
        (c : Cluster) (w : client.World) → allowed.deletes c → P w → P (client.delete_cluster c w).1

  module _ {P : client.World → Type 0} {E : ReconcileResult → Type 0} where
    pub Run-need :
        {A : Type 0} (a : Answer A) (r : ReconcileResult)
        → E r
        → Run P (need client a r) (λ _. Unit {0}) E
    Run-need (found a) r e = Run-pure a tt
    Run-need not_found r e = Run-finish r e
    Run-need (failed m) r e = Run-finish r e

    pub Run-deref : {A : Type 0} (o : Option A) → Run P (deref client o) (λ a. o ≡ some a) E
    Run-deref none = Run-crash
    Run-deref (some a) = Run-pure a refl

    -- A call whose answer is not looked into.
    pub Run-call :
        {A : Type 0} (f : client.World → A × client.World)
        → ((w : client.World) → P w → P (f w).1)
        → Run P (ask f) (λ _. Unit {0}) E
    Run-call f k = Run-ask f k (λ w. tt)

    -- A call that has to succeed.
    pub Run-needed :
        {A : Type 0} (f : client.World → Answer A × client.World) (r : ReconcileResult)
        → ((w : client.World) → P w → P (f w).1)
        → E r
        → Run P (ask f >>= λ a. need client a r) (λ _. Unit {0}) E
    Run-needed f r k e = Run-bind _ _ (Run-call f k) (λ a _. Run-need a r e)

    config_found :
        (o : Option (Option (SchedulerConfig labels))) (r : ReconcileResult)
        → E r
        → Run {A = SchedulerConfig labels} P
            (elim o [ none ↦ finish r | some cfg ↦ deref client cfg ])
            (λ _. Unit {0})
            E
    config_found none r e = Run-finish r e
    config_found (some none) r e = Run-crash
    config_found (some (some cfg)) r e = Run-pure cfg tt

    pub Run-config :
        (r : ReconcileResult)
        → ((w : client.World) → P w → P (client.get_config w).1)
        → E r
        → Run P (config_or client r) (λ _. Unit {0}) E
    Run-config r k e = Run-bind _ _ (Run-call client.get_config k) (λ o _. config_found o r e)

    pub Run-at_index : (cs : List Cluster) (i : ℕ) → Run P (at_index client cs i) (λ _. Unit {0}) E
    Run-at_index [] i = Run-crash
    Run-at_index (c ∷ cs) zero = Run-pure c tt
    Run-at_index (c ∷ cs) (suc i) = Run-at_index cs i
