-- ===== src/Api/Conditions.antt =====
-- The conditions and phases in the status of a resource (metav1.Condition, api/common/status_types.go).
use openmcp_operator.Prelude.{String}

pub record Condition : Type 0 where
  pub con_type : String
  pub status : String
  pub reason : String
  pub message : String

abbrev pub condition_true : String
condition_true = "True"

abbrev pub condition_false : String
condition_false = "False"

abbrev pub status_phase_ready : String
status_phase_ready = "Ready"

abbrev pub status_phase_progressing : String
status_phase_progressing = "Progressing"

abbrev pub status_phase_terminating : String
status_phase_terminating = "Terminating"
