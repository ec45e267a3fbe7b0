-- ===== src/Examples/ControlPlane/Settings.antt =====
-- The theorems on the configuration of ControlPlanes at concrete inputs.
use openmcp_operator.Prelude.{negsuc, none, some, List, [], ◌∷◌, ◌≡◌, ◌↔◌}
use openmcp_operator.Api.Cluster.{Endpoint, get_endpoint}
use openmcp_operator.Config.ControlPlane.{ControlPlaneConfig, apply, validate_control_plane}
use openmcp_operator.Config.ControlPlane.Exposed.{shown_url, apply_shows}
use openmcp_operator.Config.ControlPlane.Checks.{
  Valid, NegativeReplicas, validate_control_plane_iff, validate_control_plane_panics,
}
use openmcp_operator.Examples.ControlPlane.{config_cp}

abbrev endpoints_a : List Endpoint
endpoints_a = record { name = "api"; url = "https://api" } ∷ []

apply_shows_example :
    get_endpoint "public" (apply config_cp.exposed_endpoints endpoints_a)
    ≡ shown_url "public" config_cp.exposed_endpoints endpoints_a
apply_shows_example = apply_shows "public" config_cp.exposed_endpoints endpoints_a

abbrev config_negative : ControlPlaneConfig
config_negative = record config_cp { platform_service = record { replicas = some (negsuc 0) } }

validate_control_plane_panics_example :
    (validate_control_plane config_negative ≡ none) ↔ NegativeReplicas config_negative
validate_control_plane_panics_example = validate_control_plane_panics config_negative

validate_control_plane_iff_example : (validate_control_plane config_cp ≡ some []) ↔ Valid config_cp
validate_control_plane_iff_example = validate_control_plane_iff config_cp
