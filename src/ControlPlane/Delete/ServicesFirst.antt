-- ===== src/ControlPlane/Delete/ServicesFirst.antt =====
-- The deletion of a ControlPlane goes no further than its services as long as one of them exists.
use openmcp_operator.Prelude.{String, List, [], ◌∷◌, ◌≡◌}
use openmcp_operator.Flow.{found, ◌>>◌}
use openmcp_operator.Flow.Run.{Run-bind}
use openmcp_operator.Api.ControlPlane.{
  ControlPlane, ServiceProvider, ServiceResource, condition_all_services_deleted,
}
use openmcp_operator.Config.ControlPlane.{ControlPlaneConfig}
use openmcp_operator.Platform.{Library}
use openmcp_operator.ControlPlane.State.{ControlPlaneLibrary, ControlPlaneClient, attempt, modify}
use openmcp_operator.ControlPlane.Keeps.{Keeps, RangeLaw, NonEmpty}
use openmcp_operator.ControlPlane.Runs.{Kept, Any, Kept-modify, Kept-attempt}
use openmcp_operator.ControlPlane.Services.{Services, delete_depending_services}
use openmcp_operator.ControlPlane.Services.First.{only_services}
use openmcp_operator.ControlPlane.Services.Remain.{Registered, delete_depending_services_remain}
use openmcp_operator.ControlPlane.Delete.Finalizers.{Whatever}
use openmcp_operator.ControlPlane.Delete.Chain.{Nowhere}
use openmcp_operator.ControlPlane.Delete.Stages.{config_or_fail-Kept, settled-Kept}
use openmcp_operator.ControlPlane.Shared.{settled, config_or_fail, initial_draft}
use openmcp_operator.ControlPlane.Delete.{
  delete_services_first, delete_with, handle_delete, await_services, delete_behind_services,
}

module _ (lib : Library) (cp : ControlPlaneLibrary) (client : ControlPlaneClient)
    {P : client.World → Type 0} (keeps : Keeps client only_services P) (law : RangeLaw client)
    (mcp : ControlPlane)
    (registered : (v : client.World) (sps : List ServiceProvider)
      → P v
      → (client.list_service_providers v).0 ≡ found sps
      → Registered cp client keeps mcp sps) where
  await_services-never :
      (remaining : Services)
      → NonEmpty remaining
      → Kept client P Whatever
          (await_services lib cp client remaining)
          Nowhere
          (Any client P Whatever)
  unfolding await_services
  await_services-never [] h = absurd h
  await_services-never (x ∷ xs) h = record {
    at = λ s p. ((keeps.range_order (String × List ServiceResource) (x ∷ xs) s.0 p.0, p.1), tt);
  }

  services_first :
      Kept client P Whatever
        (delete_services_first lib cp client mcp)
        Nowhere
        (Any client P Whatever)
  unfolding delete_services_first
  services_first =
      Run-bind (attempt client (delete_depending_services cp client mcp)) _
        (Kept-attempt client P Whatever (delete_depending_services cp client mcp)
          (delete_depending_services_remain cp client keeps law Whatever mcp registered))
        λ tried h.
          Run-bind (settled lib cp client condition_all_services_deleted tried) _
            (settled-Kept lib cp client keeps Whatever condition_all_services_deleted tried h)
            λ remaining k. await_services-never remaining k

  with_config :
      (cfg : ControlPlaneConfig)
      → Kept client P Whatever (delete_with lib cp client cfg mcp) Nowhere (Any client P Whatever)
  unfolding delete_with
  with_config cfg =
      Run-bind (modify client (λ d. initial_draft cp cfg mcp))
        (λ u.
          delete_services_first lib cp client mcp >> delete_behind_services lib cp client cfg mcp)
        (Kept-modify client P Whatever (λ d. initial_draft cp cfg mcp) λ d m. tt)
        λ u r.
          Run-bind (delete_services_first lib cp client mcp)
            (λ v. delete_behind_services lib cp client cfg mcp) services_first λ v n. absurd n

  -- Take a property of the world under which a resource of a registered service type exists for the
  -- ControlPlane, and which reads and deletions of service resources keep. Then `handleDelete` keeps
  -- it, so that nothing but service resources is deleted or changed, and returns early.
  pub handle_delete_services_first :
      Kept client P Whatever (handle_delete lib cp client mcp) Nowhere (Any client P Whatever)
  unfolding handle_delete
  handle_delete_services_first =
      Run-bind (config_or_fail lib cp client) (λ cfg. delete_with lib cp client cfg mcp)
        (config_or_fail-Kept lib cp client keeps Whatever) λ cfg u. with_config cfg
