-- ===== src/ControlPlane/Delete/Stages.antt =====
-- The stages of `handleDelete`: what each of them may write.
use openmcp_operator.Prelude.{String, none, List, [], ◌∷◌, Bool, ◌≡◌, arith}
use openmcp_operator.Flow.Run.{Run-bind, Run-pure}
use openmcp_operator.Api.Meta.{ObjectMeta}
use openmcp_operator.Api.Conditions.{Condition}
use openmcp_operator.Api.ControlPlane.{
  ControlPlane, ServiceResource, condition_all_access_ready, condition_all_services_deleted,
}
use openmcp_operator.Platform.{Library}
use openmcp_operator.ControlPlane.State.{
  ControlPlaneLibrary, ControlPlaneClient, Attempt, done, erred, attempt,
}
use openmcp_operator.ControlPlane.Keeps.{Allowed, Keeps, RangeLaw}
use openmcp_operator.ControlPlane.Runs.{Kept, Any, Either, Kept-attempt, Kept-fail_con}
use openmcp_operator.ControlPlane.Services.{Services, delete_depending_services}
use openmcp_operator.ControlPlane.Services.Kept.{delete_depending_services-Kept}
use openmcp_operator.ControlPlane.Access.Manage.{manage_access_requests}
use openmcp_operator.ControlPlane.Access.Unneeded.{Deletes}
use openmcp_operator.ControlPlane.Access.Deletion.{InDeletion}
use openmcp_operator.ControlPlane.Access.Removal.{manage-Kept}
use openmcp_operator.ControlPlane.Shared.{
  config_or_fail, namespace_or_fail, settled, sync_conditions,
}
use openmcp_operator.ControlPlane.Delete.{
  await_services, delete_services_first, await_accesses, delete_accesses_second,
}

module _ (lib : Library) (cp : ControlPlaneLibrary) (client : ControlPlaneClient)
    {allowed : Allowed} {P : client.World → Type 0} (keeps : Keeps client allowed P)
    (M : ControlPlane → Type 0) where
  pub config_or_fail-Kept :
      Kept client P M (config_or_fail lib cp client) (Any client P M) (Any client P M)
  unfolding config_or_fail
  config_or_fail-Kept = record { at = λ s p. ground (arith, keeps.get_config s.0 p.0, p) }

  pub namespace_or_fail-Kept :
      (mcp : ControlPlane)
      → Kept client P M (namespace_or_fail lib cp client mcp) (Any client P M) (Any client P M)
  unfolding namespace_or_fail
  namespace_or_fail-Kept mcp = record { at = λ s p. ground (arith, p) }

  pub settled-Kept :
      {A : Type 0} {Q : A → Type 0} (type : String) (tried : Attempt A)
      → Either Q (Any client P M) tried
      → Kept client P M (settled lib cp client type tried) Q (Any client P M)
  settled-Kept type (done a) h = record { at = λ s p. (p, h) }
  settled-Kept type (erred e) h = Kept-fail_con client P M cp type e

  await_services-Kept :
      (remaining : Services)
      → Kept client P M (await_services lib cp client remaining) (Any client P M) (Any client P M)
  unfolding await_services
  await_services-Kept [] = record { at = λ s p. (p, tt) }
  await_services-Kept (x ∷ xs) = record {
    at = λ s p. ((keeps.range_order (String × List ServiceResource) (x ∷ xs) s.0 p.0, p.1), tt);
  }

  pub services_first-Kept :
      ((s : ServiceResource) → s.deletion_timestamp ≡ none → allowed.deletes_service s)
      → (mcp : ControlPlane)
      → Kept client P M (delete_services_first lib cp client mcp) (Any client P M) (Any client P M)
  unfolding delete_services_first
  services_first-Kept services mcp =
      Run-bind (attempt client (delete_depending_services cp client mcp)) _
        (Kept-attempt client P M (delete_depending_services cp client mcp)
          (delete_depending_services-Kept cp client keeps services M mcp))
        λ tried h.
          Run-bind (settled lib cp client condition_all_services_deleted tried)
            (await_services lib cp client) (settled-Kept condition_all_services_deleted tried h)
            λ remaining u. await_services-Kept remaining

  pub sync_conditions-Kept :
      (cons : List Condition)
      → Kept client P M (sync_conditions lib cp client cons) (Any client P M) (Any client P M)
  unfolding sync_conditions
  sync_conditions-Kept [] = Run-pure tt tt
  sync_conditions-Kept (con ∷ cons) = record { at = λ s p. (sync_conditions-Kept cons).at _ p }

module _ (lib : Library) (cp : ControlPlaneLibrary) (client : ControlPlaneClient)
    {allowed : Allowed} {P : client.World → Type 0} (keeps : Keeps client allowed P)
    (m : ObjectMeta) (deletes : Deletes allowed) (law : RangeLaw client) where
  abbrev KeptM : ControlPlane → Type 0
  KeptM = InDeletion m

  await_accesses-Kept :
      (result : Bool × List String)
      → Kept client P KeptM
          (await_accesses lib cp client result)
          (Any client P KeptM)
          (Any client P KeptM)
  unfolding await_accesses
  await_accesses-Kept result = record { at = λ s p. ground (arith, p) }

  pub accesses_second-Kept :
      (ns : String)
      → Kept client P KeptM
          (delete_accesses_second lib cp client ns)
          (Any client P KeptM)
          (Any client P KeptM)
  unfolding delete_accesses_second
  accesses_second-Kept ns =
      Run-bind (attempt client (manage_access_requests lib cp client ns none)) _
        (Kept-attempt client P KeptM (manage_access_requests lib cp client ns none)
          (manage-Kept lib cp client keeps m deletes law ns))
        λ tried h.
          Run-bind (settled lib cp client condition_all_access_ready tried)
            (await_accesses lib cp client)
            (settled-Kept lib cp client keeps KeptM condition_all_access_ready tried h)
            λ result u. await_accesses-Kept result
