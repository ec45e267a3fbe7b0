-- ===== src/Examples/ControlPlane/Creation.antt =====
-- The theorem on the creation of ControlPlanes at a concrete input.
use openmcp_operator.Prelude.{
  String, some, none, [], ◌∷◌, true, false, not, ◌&&◌, ◌≡◌, inl, inr, arith, contains,
  if◌then◌else◌, ◌==◌, ◌≢◌, eq_iff, refl,
}
use openmcp_operator.Api.ControlPlane.{ControlPlane, mcp_finalizer, mcp_purpose_override_label}
use openmcp_operator.ControlPlane.Keeps.{Keeps}
use openmcp_operator.ControlPlane.Runs.{Both, Any}
use openmcp_operator.ControlPlane.Delete.Finalizers.{Whatever}
use openmcp_operator.ControlPlane.Create.{handle_create_or_update}
use openmcp_operator.ControlPlane.Create.Allowed.{AtHand, may_create}
use openmcp_operator.ControlPlane.Create.Writes.{handle_create_or_update_writes}
use openmcp_operator.Examples.Platform.{library_a, library_a_laws}
use openmcp_operator.Flow.{found, not_found}
use openmcp_operator.Flow.Run.{After}
use openmcp_operator.Api.Meta.{get, lookup}
use openmcp_operator.Api.Requests.{ClusterRequest}
use openmcp_operator.ControlPlane.State.{ControlPlaneClient, Draft}
use openmcp_operator.ControlPlane.Shared.{initial_draft}
use openmcp_operator.Examples.ControlPlane.{mcp_a, config_cp, cp_library, Log, cp_client}

-- A ControlPlane whose label asks for another purpose than the configuration.
abbrev mcp_live : ControlPlane
mcp_live = record mcp_a {
  metadata = record mcp_a.metadata {
    deletion_timestamp = none;
    finalizers = [];
    labels = some ((mcp_purpose_override_label, "special") ∷ []);
  };
}

-- There is no ClusterRequest yet, and one that is created with another purpose is in the log.
abbrev fresh_client : ControlPlaneClient
fresh_client = record (cp_client [] false) {
  get_request = λ r w. (not_found, w);
  create_request = λ r w. (found r, if r.purpose == "special" then w else "purpose" ∷ w);
}

-- The finalizer of the ControlPlane was not removed, and no other purpose was asked for.
abbrev Proper : Log → Type 0
Proper w = (contains w "finalizer" ≡ false) × (contains w "purpose" ≡ false)

patch_Proper :
    (c d : ControlPlane) (w : Log)
    → contains d.finalizers mcp_finalizer ≡ true
    → Proper w
    → Proper (
        if contains c.finalizers mcp_finalizer && not (contains d.finalizers mcp_finalizer)
        then "finalizer" ∷ w
        else w)
patch_Proper c d w h p = ground (arith, h, p)

-- The ControlPlane at hand has the labels of the given one.
hand_labels :
    (w : Log) (c : ControlPlane)
    → AtHand library_a fresh_client mcp_live w c
    → c.labels ≡ mcp_live.labels
hand_labels w c (inl h) = h.2
hand_labels w c (inr e) = ground (arith, e)

abbrev wanted : String
wanted = "special"

special : wanted ≢ ""
special e = absurd (ground (arith, eq_iff wanted "", e))

create_Proper :
    (r : ClusterRequest) (w : Log)
    → r.purpose ≡ "special"
    → Proper w
    → Proper (if r.purpose == "special" then w else "purpose" ∷ w)
create_Proper r w h p = ground (arith, h, p, eq_iff r.purpose "special")

override :
    (c : ControlPlane)
    → c.labels ≡ mcp_live.labels
    → get mcp_purpose_override_label c.labels ≡ some "special"
unfolding lookup
override c h = rw h refl

writes_kept : Keeps fresh_client (may_create library_a cp_library fresh_client mcp_live []) Proper
unfolding contains
writes_kept = record {
  get_control_plane = λ r w p. p;
  get_onboarding_namespace = λ n w p. p;
  get_service = λ v k r w p. p;
  list_secrets = λ n l m w p. p;
  list_service_providers = λ w p. p;
  get_namespace = λ n w p. p;
  get_request = λ r w p. p;
  get_cluster = λ r w p. p;
  list_access_requests = λ n l m w p. p;
  get_secret = λ r w p. p;
  get_config = λ w p. p;
  range_order = λ A xs w p. p;
  patch_control_plane = λ c d w h p. patch_Proper c d w h.2 p;
  remove_operation_annotation = λ c w h p. absurd h;
  delete_service = λ s w h p. p;
  apply_secret = λ r f w h p. p;
  delete_secret = λ s w h p. p;
  ensure_namespace = λ n m w h p. p;
  delete_namespace = λ n w h p. absurd h;
  create_request = λ r w (c, cfg, hand, read, name, space, purposed, wait) p.
      create_Proper r w (purposed.0 wanted (override c (hand_labels [] c hand)) special) p;
  update_request = λ r w h p. p;
  delete_request = λ r w h p. absurd h;
  apply_access_request = λ r f w h p. p;
  delete_access_request = λ a w h p. p;
}

abbrev draft_a : Draft
draft_a = initial_draft cp_library config_cp mcp_live

handle_create_or_update_writes_example :
    After
      (Both fresh_client Proper Whatever)
      (Any fresh_client Proper Whatever)
      (Any fresh_client Proper Whatever)
      (handle_create_or_update library_a cp_library fresh_client mcp_live ([], draft_a)).0
      (handle_create_or_update library_a cp_library fresh_client mcp_live ([], draft_a)).1
unfolding contains
handle_create_or_update_writes_example =
    handle_create_or_update_writes library_a library_a_laws cp_library fresh_client mcp_live []
      writes_kept draft_a (refl, refl)
