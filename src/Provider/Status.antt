-- ===== src/Provider/Status.antt =====
-- `ReconcileStatus` (internal/controllers/provider/status.go).
use openmcp_operator.Prelude.{ℕ, String, Option, none, some, Bool, false, ◌<>◌}

pub record Condition : Type 0 where
  pub type : String
  pub status : String
  pub observed_generation : ℕ
  pub reason : String
  pub message : String

pub record ReconcileStatus : Type 0 where
  pub init_condition : Option Condition
  pub ready_condition : Option Condition
  pub uninstalled_condition : Option Condition
  pub observed_generation : ℕ
  pub phase : String
  pub metrics : Bool

abbrev pub phase_progressing : String
phase_progressing = "Progressing"

abbrev pub phase_uninstalling : String
phase_uninstalling = "Uninstalling"

abbrev pub phase_ready : String
phase_ready = "Ready"

abbrev condition : String → String → ReconcileStatus → String → String → Option Condition
condition type status s reason message = some (record {
  type = type;
  status = status;
  observed_generation = s.observed_generation;
  reason = reason;
  message = message;
})

abbrev set_init : String → String → String → ReconcileStatus → ReconcileStatus
set_init status reason message s = record s {
  init_condition = condition "Initialized" status s reason message;
}

abbrev set_ready : String → String → String → ReconcileStatus → ReconcileStatus
set_ready status reason message s = record s {
  ready_condition = condition "Ready" status s reason message;
}

abbrev set_uninstalled : String → String → ReconcileStatus → ReconcileStatus
set_uninstalled reason message s = record s {
  uninstalled_condition = condition "Uninstalled" "False" s reason message;
}

unfoldable pub set_init_condition_job_creation_pending : ReconcileStatus → ReconcileStatus
set_init_condition_job_creation_pending s = set_init "Unknown" "InitPending" "" s

unfoldable pub set_init_condition_job_creation_failed : String → ReconcileStatus → ReconcileStatus
set_init_condition_job_creation_failed e s = set_init "False" "InitJobCreationFailed" e s

unfoldable pub set_init_condition_job_running : ReconcileStatus → ReconcileStatus
set_init_condition_job_running s = set_init "False" "InitRunning" "Initialization is running" s

unfoldable pub set_init_condition_job_completed : ReconcileStatus → ReconcileStatus
set_init_condition_job_completed s =
    set_init "True" "InitCompleted" "Initialization has been completed" s

unfoldable pub set_ready_condition_provider_installation_pending : ReconcileStatus → ReconcileStatus
set_ready_condition_provider_installation_pending s =
    set_ready "Unknown" "ProviderInstallationPending" "" s

unfoldable pub set_ready_condition_provider_installation_failed :
    String → ReconcileStatus → ReconcileStatus
set_ready_condition_provider_installation_failed e s =
    set_ready "False" "ProviderInstallationFailed" e s

unfoldable pub set_ready_condition_provider_not_ready : String → ReconcileStatus → ReconcileStatus
set_ready_condition_provider_not_ready m s =
    set_ready "False" "ProviderNotReady" ("Waiting for provider to become ready: " <> m) s

unfoldable pub set_ready_condition_provider_ready : ReconcileStatus → ReconcileStatus
set_ready_condition_provider_ready s = set_ready "True" "ProviderReady" "Provider is ready" s

unfoldable pub set_uninstalled_condition_uninstalling : ReconcileStatus → ReconcileStatus
set_uninstalled_condition_uninstalling s =
    set_uninstalled "Uninstalling" "Provider is being uninstalled" s

unfoldable pub set_uninstalled_condition_failed : String → ReconcileStatus → ReconcileStatus
set_uninstalled_condition_failed e s = set_uninstalled "UninstallFailed" e s

abbrev new_status : ℕ → String → ReconcileStatus
new_status generation phase = record {
  init_condition = none;
  ready_condition = none;
  uninstalled_condition = none;
  observed_generation = generation;
  phase = phase;
  metrics = false;
}

unfoldable pub new_install_status : ℕ → ReconcileStatus
unfolding set_init_condition_job_creation_pending set_ready_condition_provider_installation_pending
new_install_status generation =
    set_ready_condition_provider_installation_pending
      (set_init_condition_job_creation_pending (new_status generation phase_progressing))

unfoldable pub new_uninstall_status : ℕ → ReconcileStatus
unfolding set_uninstalled_condition_uninstalling
new_uninstall_status generation =
    set_uninstalled_condition_uninstalling (new_status generation phase_uninstalling)
