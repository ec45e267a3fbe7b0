-- ===== src/Examples/ControlPlane/Deletion.antt =====
-- The theorems on the deletion of ControlPlanes at concrete inputs.
use openmcp_operator.Prelude.{
  List, [], ◌∷◌, Bool, true, false, not, ◌&&◌, ◌≡◌, ◌≢◌, refl, arith, contains, insert, cut_prefix,
  eq_iff, if◌then◌else◌,
}
use openmcp_operator.Flow.{found}
use openmcp_operator.Api.ControlPlane.{ControlPlane, ServiceProvider, mcp_finalizer}
use openmcp_operator.ControlPlane.Keeps.{Keeps}
use openmcp_operator.ControlPlane.Runs.{Kept, Any}
use openmcp_operator.ControlPlane.Services.First.{only_services}
use openmcp_operator.ControlPlane.Services.Remain.{Registered}
use openmcp_operator.ControlPlane.Requests.{request_names}
use openmcp_operator.ControlPlane.Requests.Last.{GetLaw, Remains}
use openmcp_operator.ControlPlane.Shared.{stable_mcp_namespace}
use openmcp_operator.ControlPlane.Delete.{handle_delete}
use openmcp_operator.ControlPlane.Delete.Finalizers.{Whatever, KeepsOthers}
use openmcp_operator.ControlPlane.Delete.Chain.{Nowhere}
use openmcp_operator.ControlPlane.Delete.ServicesFirst.{handle_delete_services_first}
use openmcp_operator.ControlPlane.Delete.RequestsFirst.{
  before_primary, handle_delete_requests_first,
}
use openmcp_operator.ControlPlane.Delete.NamespaceFirst.{
  before_finalizer, handle_delete_namespace_first,
}
use openmcp_operator.Examples.Platform.{library_a}
use openmcp_operator.Examples.ControlPlane.{
  mcp_a, type_a, provider_a, service_a, namespace_a, cp_library, Log, managed, cp_client, range_a,
  Clean, found_not,
}

services_kept : Keeps (cp_client (provider_a ∷ []) true) only_services Clean
services_kept = record {
  get_control_plane = λ r w p. p;
  get_onboarding_namespace = λ n w p. p;
  get_service = λ v k r w p. p;
  list_secrets = λ n l m w p. p;
  list_service_providers = λ w p. p;
  get_namespace = λ n w p. p;
  get_request = λ r w p. p;
  get_cluster = λ r w p. p;
  list_access_requests = λ n l m w p. p;
  get_secret = λ r w p. p;
  get_config = λ w p. p;
  range_order = λ A xs w p. p;
  patch_control_plane = λ c d w h p. absurd h;
  remove_operation_annotation = λ c w h p. absurd h;
  delete_service = λ s w h p. p;
  apply_secret = λ r f w h p. absurd h;
  delete_secret = λ s w h p. absurd h;
  ensure_namespace = λ n m w h p. absurd h;
  delete_namespace = λ n w h p. absurd h;
  create_request = λ r w h p. absurd h;
  update_request = λ r w h p. absurd h;
  delete_request = λ r w h p. absurd h;
  apply_access_request = λ r f w h p. absurd h;
  delete_access_request = λ a w h p. absurd h;
}

provider_a-Registered :
    (v : Log) (sps : List ServiceProvider)
    → Clean v
    → found (provider_a ∷ []) ≡ found sps
    → Registered cp_library (cp_client (provider_a ∷ []) true) services_kept mcp_a sps
unfolding contains
provider_a-Registered v sps p e = record {
  before = [];
  provider = provider_a;
  after = [];
  first = [];
  type = type_a;
  last = [];
  listed = ground (arith, e);
  registered = refl;
  latest = refl;
  exists = record {
    there = λ u q. found_not service_a;
    served = λ u m q k. absurd (ground (arith, k));
    stays = λ u res q k t r. found_not tt;
  };
}

handle_delete_services_first_example :
    Kept
      (cp_client (provider_a ∷ []) true)
      Clean
      Whatever
      (handle_delete library_a cp_library (cp_client (provider_a ∷ []) true) mcp_a)
      Nowhere
      (Any (cp_client (provider_a ∷ []) true) Clean Whatever)
unfolding contains
handle_delete_services_first_example =
    handle_delete_services_first library_a cp_library (cp_client (provider_a ∷ []) true)
      services_kept (range_a (provider_a ∷ []) true) mcp_a provider_a-Registered

-- A patch that keeps the other finalizers keeps that of the ControlPlane.
kept_finalizer :
    (c d : ControlPlane)
    → KeepsOthers c d
    → contains d.finalizers mcp_finalizer ≡ contains c.finalizers mcp_finalizer
unfolding cut_prefix
kept_finalizer c d h = h mcp_finalizer refl

patch_Clean :
    (c d : ControlPlane) (w : Log)
    → KeepsOthers c d
    → Clean w
    → Clean (
        if contains c.finalizers mcp_finalizer && not (contains d.finalizers mcp_finalizer)
        then "finalizer" ∷ w
        else w)
patch_Clean c d w h p = ground (arith, kept_finalizer c d h, p)

requests_kept : Keeps (cp_client [] true) (before_primary "demo") Clean
requests_kept = record {
  get_control_plane = λ r w p. p;
  get_onboarding_namespace = λ n w p. p;
  get_service = λ v k r w p. p;
  list_secrets = λ n l m w p. p;
  list_service_providers = λ w p. p;
  get_namespace = λ n w p. p;
  get_request = λ r w p. p;
  get_cluster = λ r w p. p;
  list_access_requests = λ n l m w p. p;
  get_secret = λ r w p. p;
  get_config = λ w p. p;
  range_order = λ A xs w p. p;
  patch_control_plane = patch_Clean;
  remove_operation_annotation = λ c w h p. absurd h;
  delete_service = λ s w h p. p;
  apply_secret = λ r f w h p. absurd h;
  delete_secret = λ s w h p. p;
  ensure_namespace = λ n m w h p. absurd h;
  delete_namespace = λ n w h p. absurd h;
  create_request = λ r w h p. absurd h;
  update_request = λ r w h p. absurd h;
  delete_request = λ r w h p. ground (arith, h.0, p, eq_iff r.name "demo");
  apply_access_request = λ r f w h p. absurd h;
  delete_access_request = λ a w h p. p;
}

named_a : (sps : List ServiceProvider) (early : Bool) → GetLaw (cp_client sps early)
named_a sps early r w cr e = ground (arith, e)

apart_a : "extra" ≢ mcp_a.name
apart_a e = absurd (ground (arith, eq_iff "extra" "demo", e))

remains_a :
    Remains
      (cp_client [] true)
      requests_kept
      (named_a [] true)
      "mcp--team-demo"
      "demo"
      "extra"
      apart_a
      (λ cr n d. (n, d))
remains_a = record { there = λ v p. found_not _; stays = λ v u cr p e q. found_not tt }

handle_delete_requests_first_example :
    Kept
      (cp_client [] true)
      Clean
      Whatever
      (handle_delete library_a cp_library (cp_client [] true) mcp_a)
      Nowhere
      (Any (cp_client [] true) Clean Whatever)
unfolding contains request_names insert cut_prefix stable_mcp_namespace
handle_delete_requests_first_example =
    handle_delete_requests_first library_a cp_library (cp_client [] true) (named_a [] true)
      (range_a [] true) mcp_a "mcp--team-demo" "extra" apart_a requests_kept remains_a refl refl
      refl

namespace_kept : Keeps (cp_client [] false) before_finalizer Clean
namespace_kept = record {
  get_control_plane = λ r w p. p;
  get_onboarding_namespace = λ n w p. p;
  get_service = λ v k r w p. p;
  list_secrets = λ n l m w p. p;
  list_service_providers = λ w p. p;
  get_namespace = λ n w p. p;
  get_request = λ r w p. p;
  get_cluster = λ r w p. p;
  list_access_requests = λ n l m w p. p;
  get_secret = λ r w p. p;
  get_config = λ w p. p;
  range_order = λ A xs w p. p;
  patch_control_plane = patch_Clean;
  remove_operation_annotation = λ c w h p. absurd h;
  delete_service = λ s w h p. p;
  apply_secret = λ r f w h p. absurd h;
  delete_secret = λ s w h p. p;
  ensure_namespace = λ n m w h p. absurd h;
  delete_namespace = λ n w h p. ground (arith, h.1, p, eq_iff (managed n) "ManagedControlPlane");
  create_request = λ r w h p. absurd h;
  update_request = λ r w h p. absurd h;
  delete_request = λ r w h p. p;
  apply_access_request = λ r f w h p. absurd h;
  delete_access_request = λ a w h p. p;
}

handle_delete_namespace_first_example :
    Kept
      (cp_client [] false)
      Clean
      Whatever
      (handle_delete library_a cp_library (cp_client [] false) mcp_a)
      Nowhere
      (Any (cp_client [] false) Clean Whatever)
unfolding stable_mcp_namespace
handle_delete_namespace_first_example =
    handle_delete_namespace_first library_a cp_library (cp_client [] false) (range_a [] false) mcp_a
      "mcp--team-demo" namespace_kept (λ w p. found_not namespace_a) refl refl
