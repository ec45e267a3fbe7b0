-- ===== src/Provider/Delete.antt =====
-- `handleDeleteOperation` and the finalizer of a provider (internal/controllers/provider/controller.go).
pub mod Removal
use openmcp_operator.Prelude.{
  ℕ, String, Option, none, some, List, Bool, true, false, not, ◌&&◌, is_some, if◌then◌else◌,
}
use openmcp_operator.Flow.{next, stop, panic}
use openmcp_operator.Platform.{Library}
use openmcp_operator.Provider.Install.{Provider, ProviderClient, uninstall_provider}
use openmcp_operator.Provider.Status.{
  ReconcileStatus, new_uninstall_status, set_uninstalled_condition_failed,
}

abbrev pub openmcp_finalizer : String
openmcp_finalizer = "openmcp.cloud/finalizer"

-- What the operation returns, and the status that it transfers into the provider, if any.
pub record DeleteResult : Type 0 where
  pub deleted : Bool
  pub requeue_after : ℕ
  pub status : Option ReconcileStatus
  pub error : Option String

module _ (lib : Library) (client : ProviderClient) where
  unfoldable pub remove_finalizer : Provider → client.World → Option String × client.World
  remove_finalizer provider w =
      let fins = (lib.remove_finalizer provider.finalizers openmcp_finalizer).0 in
      let updated = client.update_provider (record provider { finalizers = fins }) w in
      if lib.contains_finalizer provider.finalizers openmcp_finalizer
      then elim updated.0 [
        | none ↦ (none, updated.1)
        | some e ↦ (some "failed to remove finalizer from provider", updated.1)
      ]
      else (none, w)

  -- Behind the uninstallation.
  unfoldable pub finish_deletion : Provider → client.World → DeleteResult × client.World
  finish_deletion provider w = elim (remove_finalizer provider w).0 [
    | some e ↦ (
      record { deleted = false; requeue_after = 0; status = none; error = some e },
      (remove_finalizer provider w).1,
    )
    | none ↦ (
      record { deleted = true; requeue_after = 0; status = none; error = none },
      (remove_finalizer provider w).1,
    )
  ]

  -- Durations are in nanoseconds. The conversion of the status never fails here.
  unfoldable pub handle_delete_operation : Provider → client.World → DeleteResult × client.World
  handle_delete_operation provider w =
      let status = new_uninstall_status provider.generation in
      let ran = uninstall_provider lib client w in
      elim ran.0 [
        | stop e ↦ (
          record {
            deleted = false;
            requeue_after = 0;
            status = some (set_uninstalled_condition_failed e status);
            error = some e;
          },
          ran.1,
        )
        | next deleted ↦
            if not deleted
            then (
              record {
                deleted = false;
                requeue_after = 1000000000;
                status = some status;
                error = none;
              },
              ran.1,
            )
            else finish_deletion provider ran.1
        | panic ↦
            (record { deleted = false; requeue_after = 0; status = none; error = none }, ran.1)
      ]
