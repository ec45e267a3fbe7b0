-- ===== src/Examples/ControlPlane.antt =====
-- A ControlPlane and the clients of both clusters in memory.
pub mod Deletion
pub mod Creation
pub mod Settings
use openmcp_operator.Prelude.{
  pos, negsuc, String, none, some, List, [], ◌∷◌, ◌<>◌, Bool, true, false, not, ◌&&◌, ◌==◌, ◌≡◌,
  ◌≢◌, ◌↔◌, refl, inl, inr, Bool-cases, arith, contains, insert, cut_prefix, eq_iff, if◌then◌else◌,
}
use mathlib.Core.List.{Permᴰ}
use openmcp_operator.Flow.{found, not_found}
use openmcp_operator.Api.Meta.{empty_meta, ObjectReference, get, or_empty}
use openmcp_operator.Api.Cluster.{Endpoint, get_endpoint}
use openmcp_operator.Api.Requests.{ClusterRequest}
use openmcp_operator.Api.ControlPlane.{
  ControlPlane, ResourceType, ServiceProvider, ServiceResource, Secret, Namespace, mcp_finalizer,
  managed_by_label,
}
use openmcp_operator.Config.ControlPlane.{ControlPlaneConfig, apply, validate_control_plane}
use openmcp_operator.Config.ControlPlane.Exposed.{shown_url, apply_shows}
use openmcp_operator.Config.ControlPlane.Checks.{
  Valid, NegativeReplicas, validate_control_plane_iff, validate_control_plane_panics,
}
use openmcp_operator.ControlPlane.State.{ControlPlaneLibrary, ControlPlaneClient, sr_no_requeue}
use openmcp_operator.ControlPlane.Keeps.{Keeps, RangeLaw}
use openmcp_operator.ControlPlane.Runs.{Kept, Any}
use openmcp_operator.ControlPlane.Services.First.{only_services}
use openmcp_operator.ControlPlane.Services.Remain.{Registered}
use openmcp_operator.ControlPlane.Requests.{request_names}
use openmcp_operator.ControlPlane.Requests.Last.{GetLaw, Remains}
use openmcp_operator.ControlPlane.Shared.{stable_mcp_namespace}
use openmcp_operator.ControlPlane.Delete.{handle_delete}
use openmcp_operator.ControlPlane.Delete.Finalizers.{Whatever, KeepsOthers}
use openmcp_operator.ControlPlane.Delete.Chain.{Nowhere}
use openmcp_operator.ControlPlane.Delete.ServicesFirst.{handle_delete_services_first}
use openmcp_operator.ControlPlane.Delete.RequestsFirst.{
  before_primary, handle_delete_requests_first,
}
use openmcp_operator.ControlPlane.Delete.NamespaceFirst.{
  before_finalizer, handle_delete_namespace_first,
}
use openmcp_operator.ControlPlane.Create.{handle_create_or_update}
use openmcp_operator.ControlPlane.Create.Writes.{handle_create_or_update_writes}
use openmcp_operator.Examples.Platform.{library_a, library_a_laws, cluster_a, request_a}
use openmcp_operator.Examples.Access.{access_a}

-- In deletion, with finalizers for its primary ClusterRequest and another one.
abbrev pub mcp_a : ControlPlane
mcp_a = record {
  metadata = record empty_meta {
    name = "demo";
    namespace = "team";
    deletion_timestamp = some 7;
    finalizers =
        "core.openmcp.cloud/mcp" ∷ "request.clusters.openmcp.cloud/demo"
        ∷ "request.clusters.openmcp.cloud/extra" ∷ [];
  };
  iam = record { tokens = []; oidc = none };
  status = record { phase = ""; conditions = []; access = none; endpoints = [] };
}

abbrev pub config_cp : ControlPlaneConfig
config_cp = record {
  mcp_cluster_purpose = "mcp";
  default_oidc_provider = none;
  reconcile_mcp_every_x_days = pos 7;
  platform_service = record { replicas = some (pos 1) };
  exposed_endpoints = record { name = "api"; rename_to = "public" } ∷ [];
}

abbrev pub type_a : ResourceType
type_a = record { group = "flux.services"; version = "v1"; kind = "Flux" }

abbrev pub provider_a : ServiceProvider
provider_a = record { name = "flux"; resources = type_a ∷ [] }

abbrev pub service_a : ServiceResource
service_a = record {
  metadata = record empty_meta { name = "demo"; namespace = "team" };
  api_version = "flux.services/v1";
  kind = "Flux";
}

abbrev secret_a : Secret
secret_a = record { metadata = empty_meta; contents = [] }

abbrev pub namespace_a : Namespace
namespace_a = record {
  metadata = record empty_meta {
    name = "mcp--team-demo";
    labels = some (
        ("core.openmcp.cloud/mcp-name", "demo")
        ∷ ("core.openmcp.cloud/mcp-namespace", "team")
        ∷ ("openmcp.cloud/managed-by", "ManagedControlPlane")
        ∷ []);
  };
}

abbrev pub cp_library : ControlPlaneLibrary
cp_library = record {
  error_reason = λ e. "Error";
  error_message = λ e. "error";
  is_no_match_error = λ e. e == "no match";
  k8s_name_uuid = λ a b. some (a <> "-" <> b);
  replace_all = λ s a b. s;
  trim_suffix = λ s t. s;
  set_controller_reference = λ c s. some s;
  smart_requeue_zero = sr_no_requeue;
}

-- A request of the name that was asked for.
abbrev request_of : ObjectReference → ClusterRequest
request_of r = record request_a {
  metadata = record request_a.metadata { name = r.name; namespace = r.namespace };
}

-- The world is a log of the writes that the theorem at hand excludes.
abbrev pub Log : Type 0
Log = List String

abbrev pub managed : Namespace → String
managed n = or_empty (get managed_by_label n.labels)

-- The primary ClusterRequest and the namespace are kept as well where it is early.
abbrev pub cp_client : List ServiceProvider → Bool → ControlPlaneClient
cp_client sps early = record {
  World = Log;
  get_control_plane = λ r w. (found mcp_a, w);
  patch_control_plane = λ c d w. (
    found d,
    if contains c.finalizers mcp_finalizer && not (contains d.finalizers mcp_finalizer)
        then "finalizer" ∷ w
        else w,
  );
  remove_operation_annotation = λ c w. (found c, "annotation" ∷ w);
  get_onboarding_namespace = λ n w. (found namespace_a, w);
  get_service = λ v k r w. (found service_a, w);
  delete_service = λ s w. (found tt, w);
  list_secrets = λ n l m w. (found [], w);
  apply_secret = λ r f w. (found secret_a, "secret" ∷ w);
  delete_secret = λ s w. (found tt, w);
  list_service_providers = λ w. (found sps, w);
  ensure_namespace = λ n m w. (found tt, "namespace" ∷ w);
  get_namespace = λ n w. (found namespace_a, w);
  delete_namespace = λ n w.
      (found tt, if not early && managed n == "ManagedControlPlane" then w else "namespace" ∷ w);
  get_request = λ r w. (found (request_of r), w);
  create_request = λ r w. (found r, "request" ∷ w);
  update_request = λ r w. (found r, "request" ∷ w);
  delete_request = λ r w. (found tt, if early && r.name == "demo" then "primary" ∷ w else w);
  get_cluster = λ r w. (found cluster_a, w);
  list_access_requests = λ n l m w. (found [], w);
  apply_access_request = λ r f w. (found access_a, "access" ∷ w);
  delete_access_request = λ a w. (found tt, w);
  get_secret = λ r w. (found secret_a, w);
  get_config = λ w. (some config_cp, w);
  range_order = λ xs w. (xs, w);
}

same_order : {A : Type 0} (xs : List A) → Permᴰ xs xs
same_order [] = Permᴰ.nil
same_order (x ∷ xs) = Permᴰ.cons refl (same_order xs)

pub range_a : (sps : List ServiceProvider) (early : Bool) → RangeLaw (cp_client sps early)
range_a sps early A xs w = same_order xs

-- Nothing that is excluded was written.
abbrev pub Clean : Log → Type 0
Clean w = w ≡ []

pub found_not : {A : Type 0} (a : A) → found a ≢ not_found
found_not a e = absurd (ground (arith, e))
