-- ===== src/ControlPlane/Create.antt =====
-- `handleCreateOrUpdate` (internal/controllers/controlplane/controller.go).
pub mod Access
pub mod Allowed
pub mod Request
pub mod Writes
use openmcp_operator.Prelude.{
  String, Option, none, some, List, [], ◌∷◌, ◌++◌, Bool, true, false, not, ◌==◌, ◌&&◌, ◌||◌, ◌<>◌,
  is_some, if◌then◌else◌,
}
use openmcp_operator.Flow.{
  pure, finish, crash, ◌>>=◌, ◌>>◌, Answer, found, not_found, failed, Failure, with_reason,
  onboarding_cluster_interaction_problem, platform_cluster_interaction_problem,
  configuration_problem, internal_error,
}
use openmcp_operator.Api.Meta.{Dict, GoMap, get, or_empty, lookup, put, empty_meta}
use openmcp_operator.Api.Conditions.{condition_true, condition_false}
use openmcp_operator.Api.Cluster.{Cluster}
use openmcp_operator.Api.Requests.{ClusterRequest, is_granted}
use openmcp_operator.Api.ControlPlane.{
  ControlPlane, Namespace, mcp_name_label, mcp_namespace_label, managed_by_label,
  mcp_purpose_override_label, mcp_finalizer, cluster_request_finalizer_prefix, condition_meta,
  condition_cluster_request_ready, condition_cluster_conditions_synced,
}
use openmcp_operator.Config.ControlPlane.{ControlPlaneConfig, apply}
use openmcp_operator.Config.Selector.{put_all}
use openmcp_operator.Platform.{Library}
use openmcp_operator.ControlPlane.State.{
  SmartRequeue, sr_no_requeue, sr_backoff, ControlPlaneResult, ControlPlaneLibrary,
  ControlPlaneClient, Draft, Action, Attempt, done, erred, call, modify, draft, create_con, attempt,
  return_rr, fail_con, need_con, wait_con, failure_of, with_mcp, with_finalizers, result_of,
}
use openmcp_operator.ControlPlane.Access.Desired.{controller_name, waiting_for_access_request}
use openmcp_operator.ControlPlane.Access.Manage.{manage_access_requests}
use openmcp_operator.ControlPlane.Shared.{
  config_or_fail, initial_draft, with_endpoints, sync_conditions, namespace_or_fail, patch_mcp,
}

-- `mcpLabels`.
abbrev pub mcp_labels : ControlPlane → Dict
mcp_labels mcp =
    (mcp_name_label, mcp.name)
    ∷ (mcp_namespace_label, mcp.namespace)
    ∷ (managed_by_label, controller_name)
    ∷ []

-- A label of the namespace that becomes metadata, if it is there.
abbrev copy_label : String → String → GoMap → Dict → Dict
copy_label label key labels m = elim (get label labels) [ none ↦ m | some v ↦ put key v m ]

-- `metadataLabels`, with the labels of the ControlPlane's namespace if that could be fetched.
unfoldable pub metadata_labels : ControlPlane → Answer Namespace → Dict
metadata_labels mcp ns =
    let own : Dict =
      ("metadata.open-control-plane.io/cp-name", mcp.name)
      ∷ ("metadata.open-control-plane.io/cp-namespace", mcp.namespace)
      ∷ [] in
    elim ns [
      | found n ↦
          copy_label "core.openmcp.cloud/workspace" "metadata.open-control-plane.io/workspace"
            n.labels
            (copy_label "core.openmcp.cloud/project" "metadata.open-control-plane.io/project"
              n.labels own)
      | not_found ↦ own
      | failed e ↦ own
    ]

-- The purpose of the configuration, unless a label overrides it.
unfoldable pub cluster_purpose : ControlPlaneConfig → ControlPlane → String
cluster_purpose cfg mcp =
    let override = or_empty (get mcp_purpose_override_label mcp.labels) in
    if override == "" then cfg.mcp_cluster_purpose else override

-- The ClusterRequest that is created.
unfoldable pub new_request : ControlPlane → String → String → Dict → ClusterRequest
new_request mcp ns purpose metadata = record {
  metadata = record empty_meta {
    name = mcp.name;
    namespace = ns;
    labels = some (put_all (mcp_labels mcp) metadata);
  };
  purpose = purpose;
  wait_for_cluster_deletion = some true;
  status = record { phase = ""; cluster = none };
}

-- The labels that are missing or outdated are set, and whether there was one; a write to a nil map
-- panics.
unfoldable pub update_labels : Dict → GoMap → Option (GoMap × Bool)
update_labels [] labels = some (labels, false)
update_labels ((k, v) ∷ expected) labels =
    if or_empty (get k labels) == v then update_labels expected labels else elim labels [
      | none ↦ none
      | some m ↦ elim (update_labels expected (some (put k v m))) [
        | none ↦ none
        | some r ↦ some (r.0, true)
      ]
    ]

abbrev pub with_request_labels : ClusterRequest → GoMap → ClusterRequest
with_request_labels cr ls = record cr { metadata = record cr.metadata { labels = ls } }

module _ (lib : Library) (cp : ControlPlaneLibrary) (client : ControlPlaneClient) where
  -- Both finalizers are ensured.
  unfoldable pub ensure_finalizers : Action client (Unit {0})
  ensure_finalizers = do
    d ← draft client
    let first = lib.add_finalizer d.mcp.finalizers mcp_finalizer
    let second = lib.add_finalizer first.0 (cluster_request_finalizer_prefix <> d.mcp.name)
    modify client (λ e. with_mcp (with_finalizers second.0 e.mcp) e)
    if second.1 || first.1
        then patch_mcp lib cp client d.old_object condition_meta
            (failure_of "error adding finalizers to MCP" onboarding_cluster_interaction_problem)
        else pure tt

  unfoldable pub ensure_platform_namespace : String → Action client (Unit {0})
  ensure_platform_namespace ns = do
    d ← draft client
    ans ← call client (client.ensure_namespace ns (mcp_labels d.mcp))
    need_con client cp ans condition_meta (
        failure_of "error ensuring namespace on platform cluster"
          platform_cluster_interaction_problem)
    create_con client condition_meta condition_true "" ""

  -- A new ClusterRequest is created.
  unfoldable pub create_cluster_request : String → String → Dict → Action client ClusterRequest
  unfolding new_request
  create_cluster_request ns purpose metadata = do
    d ← draft client
    ans ← call client (client.create_request (new_request d.mcp ns purpose metadata))
    need_con client cp ans condition_cluster_request_ready
        (failure_of "error creating ClusterRequest" platform_cluster_interaction_problem)

  -- The metadata labels of the ClusterRequest that exists are brought up to date.
  unfoldable pub update_cluster_request : Dict → ClusterRequest → Action client ClusterRequest
  unfolding update_labels
  update_cluster_request metadata cr = elim (update_labels metadata cr.labels) [
    | none ↦ crash
    | some r ↦
        if r.1
        then (do
          ans ← call client (client.update_request (with_request_labels cr r.0))
          need_con client cp ans condition_cluster_request_ready
              (failure_of "error updating ClusterRequest" platform_cluster_interaction_problem))
        else pure (with_request_labels cr r.0)
  ]

  unfoldable pub ensure_request : ControlPlaneConfig → String → Action client ClusterRequest
  unfolding metadata_labels cluster_purpose
  ensure_request cfg ns = do
    d ← draft client
    answer ← call client (client.get_onboarding_namespace d.mcp.namespace)
    let metadata = metadata_labels d.mcp answer
    got ← call client (client.get_request (record { name = d.mcp.name; namespace = ns }))
    elim got [
      | found cr ↦ update_cluster_request metadata cr
      | not_found ↦ create_cluster_request ns (cluster_purpose cfg d.mcp) metadata
      | failed e ↦
          fail_con client cp condition_cluster_request_ready
            (failure_of "unable to get ClusterRequest" platform_cluster_interaction_problem)
    ]

  -- The cluster of a granted request.
  unfoldable pub granted_cluster : ClusterRequest → Action client Cluster
  unfolding is_granted
  granted_cluster cr =
      if is_granted cr.status
      then (do
        create_con client condition_cluster_request_ready condition_true ""
            "ClusterRequest is ready"
        elim cr.status.cluster [
          | none ↦
              fail_con client cp condition_cluster_conditions_synced
                (failure_of "ClusterRequest does not have a ClusterRef set" internal_error)
          | some ref ↦ (do
            ans ← call client (client.get_cluster ref)
            need_con client cp ans condition_cluster_conditions_synced
                (failure_of "unable to get Cluster" platform_cluster_interaction_problem))
        ])
      else wait_con client condition_cluster_request_ready "WaitingForClusterRequest"
          "ClusterRequest is not ready yet"

  unfoldable pub show_cluster : ControlPlaneConfig → Cluster → Action client (Unit {0})
  show_cluster cfg c = do
    sync_conditions lib cp client c.status.conditions
    create_con client condition_cluster_conditions_synced condition_true ""
        "Cluster conditions have been synced to MCP"
    modify client
        (λ d. with_mcp (with_endpoints (apply cfg.exposed_endpoints c.status.endpoints) d.mcp) d)

  unfoldable pub manage_access : String → ClusterRequest → Action client ControlPlaneResult
  manage_access ns cr = do
    tried ← attempt client (manage_access_requests lib cp client ns (some cr))
    elim tried [
      | erred e ↦ return_rr client (some e)
      | done result ↦ (do
        modify client (λ d. record d {
          conditions_to_remove = result.1;
          smart_requeue = if result.0 then sr_no_requeue else sr_backoff;
        })
        return_rr client none)
    ]

  -- `handleCreateOrUpdate` behind the ClusterRequest, and behind the configuration.
  unfoldable pub create_behind_request :
      ControlPlaneConfig → String → ClusterRequest → Action client ControlPlaneResult
  create_behind_request cfg ns cr = do
    c ← granted_cluster cr
    show_cluster cfg c
    manage_access ns cr

  unfoldable pub create_behind_finalizers :
      ControlPlaneConfig → ControlPlane → Action client ControlPlaneResult
  create_behind_finalizers cfg mcp = do
    ns ← namespace_or_fail lib cp client mcp
    ensure_platform_namespace ns
    cr ← ensure_request cfg ns
    create_behind_request cfg ns cr

  unfoldable pub create_with : ControlPlaneConfig → ControlPlane → Action client ControlPlaneResult
  create_with cfg mcp = do
    modify client (λ d. initial_draft cp cfg mcp)
    ensure_finalizers
    d ← draft client
    create_behind_finalizers cfg d.mcp

  unfoldable pub handle_create_or_update : ControlPlane → Action client ControlPlaneResult
  handle_create_or_update mcp = do cfg ← config_or_fail lib cp client; create_with cfg mcp
