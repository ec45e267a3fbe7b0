-- ===== src/ControlPlane/Delete/Chain.antt =====
-- `handleDelete` from its beginning to the stage behind the AccessRequests: where that stage returns
-- early, the whole handler does, and up to it only what the first two stages may write is written.
use openmcp_operator.Prelude.{String, none, some, true, ◌≡◌, refl, is_some}
use openmcp_operator.Flow.{◌>>◌}
use openmcp_operator.Flow.Run.{After, Run-bind, into_bind}
use openmcp_operator.Api.ControlPlane.{ControlPlane, ServiceResource}
use openmcp_operator.Config.ControlPlane.{ControlPlaneConfig}
use openmcp_operator.Platform.{Library}
use openmcp_operator.ControlPlane.State.{ControlPlaneLibrary, ControlPlaneClient, Stage, Action}
use openmcp_operator.ControlPlane.Keeps.{Allowed, Keeps, RangeLaw}
use openmcp_operator.ControlPlane.Runs.{Both, Kept, Any}
use openmcp_operator.ControlPlane.Access.Unneeded.{Deletes}
use openmcp_operator.ControlPlane.Access.Deletion.{InDeletion}
use openmcp_operator.ControlPlane.Shared.{
  initial_draft, stable_mcp_namespace, namespace_or_fail, config_or_fail,
}
use openmcp_operator.ControlPlane.Delete.{
  delete_services_first, delete_accesses_second, delete_behind_accesses, delete_behind_services,
  delete_with, handle_delete,
}
use openmcp_operator.ControlPlane.Delete.Stages.{
  config_or_fail-Kept, services_first-Kept, accesses_second-Kept,
}
use openmcp_operator.ControlPlane.Delete.Finalizers.{Whatever}

-- No value is gone on with.
abbrev pub Nowhere : {A : Type 0} → A → Type 0
Nowhere a = ⊥

-- The ControlPlane at hand has the metadata of this one, which is in deletion.
abbrev pub Here : ControlPlane → ControlPlane → Type 0
Here mcp = InDeletion mcp.metadata

module _ (client : ControlPlaneClient) (P : client.World → Type 0) where
  -- The action returns early, with the property of the world.
  abbrev pub Stops : {A : Type 0} → Action client A → Stage client → Type 0
  Stops m s = After (Both client P Whatever) Nowhere (Any client P Whatever) (m s).0 (m s).1

  pub forget :
      (M : ControlPlane → Type 0) (s : Stage client) → Both client P M s → Both client P Whatever s
  forget M s p = (p.0, tt)

module _ (lib : Library) (cp : ControlPlaneLibrary) (client : ControlPlaneClient)
    (law : RangeLaw client) {allowed : Allowed} {P : client.World → Type 0}
    (keeps : Keeps client allowed P) (deletes : Deletes allowed)
    (services : (s : ServiceResource) → s.deletion_timestamp ≡ none → allowed.deletes_service s)
    (mcp : ControlPlane) (ns : String)
    (behind : (cfg : ControlPlaneConfig) (s : Stage client)
      → Both client P (Here mcp) s
      → Stops client P (delete_behind_accesses lib cp client cfg ns) s) where
  accesses-Stops :
      (cfg : ControlPlaneConfig) (s : Stage client)
      → Both client P (Here mcp) s
      → Stops client P
          (delete_accesses_second lib cp client ns >> delete_behind_accesses lib cp client cfg ns)
          s
  accesses-Stops cfg =
      into_bind (Both client P (Here mcp)) (Both client P Whatever) (forget client P (Here mcp))
        Nowhere (Any client P Whatever) (delete_accesses_second lib cp client ns)
        (λ u. delete_behind_accesses lib cp client cfg ns)
        (accesses_second-Kept lib cp client keeps mcp.metadata deletes law ns)
        λ u x v q. behind cfg v q

  with_config-Stops :
      (cfg : ControlPlaneConfig) (s : Stage client)
      → is_some mcp.deletion_timestamp ≡ true
      → stable_mcp_namespace lib cp client mcp.name mcp.namespace ≡ some ns
      → P s.0
      → Stops client P (delete_with lib cp client cfg mcp) s
  unfolding delete_with delete_behind_services namespace_or_fail
  with_config-Stops cfg s deleting space p =
      into_bind (Both client P (Here mcp)) (Both client P Whatever) (forget client P (Here mcp))
        Nowhere (Any client P Whatever) (delete_services_first lib cp client mcp)
        (λ u. delete_behind_services lib cp client cfg mcp)
        (services_first-Kept lib cp client keeps (Here mcp) services mcp)
        (λ u x v q. rw (space, namespace_or_fail) (accesses-Stops cfg v q))
        (s.0, initial_draft cp cfg mcp) (p, (refl, deleting))

  pub handle_delete-Kept :
      is_some mcp.deletion_timestamp ≡ true
      → stable_mcp_namespace lib cp client mcp.name mcp.namespace ≡ some ns
      → Kept client P Whatever (handle_delete lib cp client mcp) Nowhere (Any client P Whatever)
  unfolding handle_delete
  handle_delete-Kept deleting space =
      Run-bind (config_or_fail lib cp client) (λ cfg. delete_with lib cp client cfg mcp)
        (config_or_fail-Kept lib cp client keeps Whatever)
        λ cfg u. record { at = λ s p. with_config-Stops cfg s deleting space p.0 }
