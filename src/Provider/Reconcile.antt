-- ===== src/Provider/Reconcile.antt =====
-- `install` and `handleDeleteOperation` (internal/controllers/provider/controller.go).
use openmcp_operator.Prelude.{String, Option, none, some, Bool, not, if◌then◌else◌}
use openmcp_operator.Flow.{next, stop, panic}
use openmcp_operator.Platform.{Library}
use openmcp_operator.Provider.Install.{
  Provider, ProviderClient, install_init_job, install_provider, check_provider_readiness,
}
use openmcp_operator.Provider.Status.{
  ReconcileStatus, phase_ready, new_install_status, set_init_condition_job_creation_failed,
  set_init_condition_job_running, set_init_condition_job_completed,
  set_ready_condition_provider_installation_failed, set_ready_condition_provider_not_ready,
  set_ready_condition_provider_ready,
}

abbrev pub openmcp_finalizer : String
openmcp_finalizer = "openmcp.cloud/finalizer"

abbrev with_metrics : Bool → ReconcileStatus → ReconcileStatus
with_metrics m s = record s { metrics = m }

module _ (lib : Library) (client : ProviderClient) where
  -- The readiness check at the end. `metrics` says whether the installer has set the metrics.
  unfoldable pub finish_install :
      Bool → ReconcileStatus → client.World → (ReconcileStatus × Option String) × client.World
  finish_install metrics s w = elim (check_provider_readiness lib client w).0 [
    | some m ↦ (
      (with_metrics metrics (set_ready_condition_provider_not_ready m s), none),
      (check_provider_readiness lib client w).1,
    )
    | none ↦ (
      (
        with_metrics metrics
            (record (set_ready_condition_provider_ready s) { phase = phase_ready }),
        none,
      ),
      (check_provider_readiness lib client w).1,
    )
  ]

  unfoldable pub continue_install :
      Provider → ReconcileStatus → client.World → (ReconcileStatus × Option String) × client.World
  continue_install provider s w = elim (install_provider lib client provider w).0 [
    | next metrics ↦ finish_install metrics s (install_provider lib client provider w).1
    | stop e ↦ (
      (set_ready_condition_provider_installation_failed e s, some e),
      (install_provider lib client provider w).1,
    )
    | panic ↦ ((s, none), (install_provider lib client provider w).1)
  ]

  -- The status and the error. The installer never panics.
  unfoldable pub install :
      Provider → client.World → (ReconcileStatus × Option String) × client.World
  install provider w =
      let status = new_install_status provider.generation in
      let job = install_init_job lib client provider w in
      elim job.0 [
        | next completed ↦
            if not completed
            then ((set_init_condition_job_running status, none), job.1)
            else continue_install provider (set_init_condition_job_completed status) job.1
        | stop e ↦ ((set_init_condition_job_creation_failed e status, some e), job.1)
        | panic ↦ ((status, none), job.1)
      ]
