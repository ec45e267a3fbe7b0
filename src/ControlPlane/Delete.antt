-- ===== src/ControlPlane/Delete.antt =====
-- `handleDelete` (internal/controllers/controlplane/controller.go).
pub mod Stages
pub mod Finalizers
pub mod Chain
pub mod ServicesFirst
pub mod RequestsFirst
pub mod NamespaceFirst
use openmcp_operator.Prelude.{
  ℤ, pos, String, Option, none, some, List, [], ◌∷◌, ◌++◌, Bool, true, false, not, ◌==◌, ◌&&◌, ◌||◌,
  ◌<>◌, contains, select, map, length, eqb, cut_prefix, starts_with, is_some, if◌then◌else◌,
}
use openmcp_operator.Flow.{
  pure, finish, ◌>>=◌, ◌>>◌, Answer, found, not_found, failed, Failure, with_reason,
  onboarding_cluster_interaction_problem, platform_cluster_interaction_problem,
  configuration_problem, internal_error,
}
use openmcp_operator.Api.Meta.{get, or_empty}
use openmcp_operator.Api.Conditions.{Condition, condition_true}
use openmcp_operator.Api.Cluster.{Cluster, Endpoint}
use openmcp_operator.Api.ControlPlane.{
  ControlPlane, ServiceResource, Namespace, mcp_name_label, mcp_namespace_label, managed_by_label,
  mcp_finalizer, cluster_request_finalizer_prefix, condition_meta,
  condition_cluster_conditions_synced, condition_prefix_cluster_condition,
  condition_all_access_ready, condition_all_services_deleted,
  condition_all_cluster_requests_deleted,
}
use openmcp_operator.Config.ControlPlane.{ControlPlaneConfig, apply}
use openmcp_operator.Platform.{Library}
use openmcp_operator.ControlPlane.State.{
  ControlPlaneResult, ControlPlaneLibrary, ControlPlaneClient, Draft, Action, Attempt, done, erred,
  Step, days, call, modify, draft, create_con, attempt, return_rr, fail_con, need_con, wait_con,
  failure_of, with_mcp, with_finalizers,
}
use openmcp_operator.ControlPlane.Services.{Services, delete_depending_services}
use openmcp_operator.ControlPlane.Requests.{delete_related_cluster_requests}
use openmcp_operator.ControlPlane.Access.Desired.{controller_name}
use openmcp_operator.ControlPlane.Access.Undesired.{waiting_for_access_request_deletion}
use openmcp_operator.ControlPlane.Access.Manage.{manage_access_requests}
use openmcp_operator.ControlPlane.Shared.{
  empty_result, initial_draft, with_endpoints, stable_mcp_namespace, sync_conditions, settled,
  namespace_or_fail, patch_mcp, config_or_fail,
}

-- The parts of a text joined by a separator, `strings.Join`.
unfoldable pub join : String → List String → String
join sep [] = ""
join sep (x ∷ xs) = elim xs [ [] ↦ x | y ∷ ys ↦ x <> sep <> join sep xs ]

-- `[%s]%s.%s, ` for each resource of one provider, and of all.
unfoldable pub list_resources : String → List ServiceResource → String
list_resources provider [] = ""
list_resources provider (res ∷ ress) =
    "["
    <> provider
    <> "]"
    <> res.kind
    <> "."
    <> res.api_version
    <> ", "
    <> list_resources provider ress

unfoldable pub list_services : Services → String
list_services [] = ""
list_services ((provider, ress) ∷ services) = list_resources provider ress <> list_services services

-- The finalizers of ClusterRequests that do not remain.
unfoldable pub is_released : List String → String → Bool
is_released remaining fin = elim (cut_prefix fin cluster_request_finalizer_prefix) [
  | none ↦ false
  | some name ↦ not (contains remaining name)
]

-- The namespace carries the labels of the ControlPlane.
unfoldable pub owns_namespace : ControlPlane → Namespace → Bool
owns_namespace mcp ns =
    or_empty (get mcp_name_label ns.labels) == mcp.name
    && or_empty (get mcp_namespace_label ns.labels) == mcp.namespace
    && or_empty (get managed_by_label ns.labels) == controller_name

module _ (lib : Library) (cp : ControlPlaneLibrary) (client : ControlPlaneClient) where
  -- Either all services are deleted, or those that remain are waited for.
  unfoldable pub await_services : Services → Action client (Unit {0})
  await_services [] =
      create_con client condition_all_services_deleted condition_true ""
        "All service resources have been deleted"
  await_services (s ∷ ss) = do
    ordered ← call client (client.range_order (s ∷ ss))
    wait_con client condition_all_services_deleted "WaitingForServiceDeletion" (
        cp.trim_suffix
          ("Waiting for the following service resources to be deleted: " <> list_services ordered)
          ", ")

  unfoldable pub delete_services_first : ControlPlane → Action client (Unit {0})
  delete_services_first mcp = do
    tried ← attempt client (delete_depending_services cp client mcp)
    remaining ← settled lib cp client condition_all_services_deleted tried
    await_services remaining

  -- Either all AccessRequests are deleted, or they are waited for.
  unfoldable pub await_accesses : Bool × List String → Action client (Unit {0})
  await_accesses result = do
    modify client (λ d. record d { conditions_to_remove = result.1 })
    if result.0
        then create_con client condition_all_access_ready condition_true ""
            "All AccessRequests have been deleted"
        else wait_con client condition_all_access_ready waiting_for_access_request_deletion
            "Waiting for AccessRequests to be deleted"

  unfoldable pub delete_accesses_second : String → Action client (Unit {0})
  delete_accesses_second ns = do
    tried ← attempt client (manage_access_requests lib cp client ns none)
    result ← settled lib cp client condition_all_access_ready tried
    await_accesses result

  -- The primary cluster's conditions and endpoints, or the removal of those that were there.
  unfoldable pub show_primary : ControlPlaneConfig → Option Cluster → Action client (Unit {0})
  show_primary cfg none = do
    modify client (λ d. record d {
      conditions_to_remove =
          d.conditions_to_remove
          ++ map (λ (con : Condition). con.con_type)
              (select
                (λ (con : Condition). starts_with con.con_type condition_prefix_cluster_condition)
                d.mcp.status.conditions);
    })
    create_con client condition_cluster_conditions_synced condition_true ""
        "Primary Cluster for MCP does not exist anymore"
  show_primary cfg (some c) = do
    sync_conditions lib cp client c.status.conditions
    create_con client condition_cluster_conditions_synced condition_true ""
        "Cluster conditions have been synced to MCP"
    modify client
        (λ d. with_mcp (with_endpoints (apply cfg.exposed_endpoints c.status.endpoints) d.mcp) d)

  -- The finalizers of the ClusterRequests that are gone are removed.
  unfoldable pub remove_request_finalizers : List String → Action client (Unit {0})
  unfolding is_released
  remove_request_finalizers remaining = do
    d ← draft client
    if eqb (length (select (is_released remaining) d.mcp.finalizers)) 0 then pure tt else (do
      modify client (λ e.
          with_mcp
            (with_finalizers (select (λ f. not (is_released remaining f)) e.mcp.finalizers) e.mcp)
            e)
      patch_mcp lib cp client d.mcp condition_all_cluster_requests_deleted (
          failure_of "error removing ClusterRequest finalizers from MCP"
            onboarding_cluster_interaction_problem)
      modify client (λ e. record e { old_object = e.mcp }))

  -- Either all ClusterRequests are deleted, or those that remain are waited for.
  unfoldable pub await_requests : List String → Action client (Unit {0})
  await_requests [] =
      create_con client condition_all_cluster_requests_deleted condition_true ""
        "All ClusterRequests have been deleted"
  await_requests (name ∷ names) =
      wait_con client condition_all_cluster_requests_deleted "WaitingForClusterRequestDeletion" (
        "Waiting for the following ClusterRequests to be deleted: "
        <> join ", " (lib.set_list (name ∷ names)))

  unfoldable pub delete_requests_third : ControlPlaneConfig → String → Action client (Unit {0})
  delete_requests_third cfg ns = do
    d ← draft client
    tried ← attempt client (delete_related_cluster_requests client d.mcp ns)
    result ← settled lib cp client condition_all_cluster_requests_deleted tried
    show_primary cfg result.1
    remove_request_finalizers result.0
    await_requests result.0

  -- A namespace that is there is waited for.
  unfoldable pub await_namespace : String → Bool → Action client (Unit {0})
  await_namespace ns true =
      wait_con client condition_meta "WaitingForNamespaceDeletion"
        ("Waiting for namespace '" <> ns <> "' to be deleted")
  await_namespace ns false = pure tt

  -- The namespace is deleted if it belongs to the ControlPlane and is not in deletion.
  unfoldable pub delete_owned_namespace : ControlPlane → Namespace → Action client (Unit {0})
  unfolding owns_namespace
  delete_owned_namespace mcp n =
      if owns_namespace mcp n && not (is_some n.deletion_timestamp)
      then (do
        deleted ← call client (client.delete_namespace n)
        need_con client cp deleted condition_meta (
            failure_of "error deleting namespace on platform cluster"
              platform_cluster_interaction_problem))
      else pure tt

  -- Whether the namespace still is there.
  unfoldable pub settle_namespace : ControlPlane → Answer Namespace → Action client Bool
  settle_namespace mcp (found n) = do delete_owned_namespace mcp n; pure true
  settle_namespace mcp not_found = pure false
  settle_namespace mcp (failed e) = fail_con client cp condition_meta (
      failure_of "error getting namespace on platform cluster" platform_cluster_interaction_problem)

  unfoldable pub delete_namespace_fourth : String → Action client (Unit {0})
  delete_namespace_fourth ns = do
    d ← draft client
    got ← call client (client.get_namespace ns)
    there ← settle_namespace d.mcp got
    await_namespace ns there

  unfoldable pub remove_mcp_finalizer : Action client (Unit {0})
  remove_mcp_finalizer = do
    d ← draft client
    let removed = lib.remove_finalizer d.mcp.finalizers mcp_finalizer
    modify client (λ e. with_mcp (with_finalizers removed.0 e.mcp) e)
    if removed.1
        then patch_mcp lib cp client d.old_object condition_meta
            (failure_of "error removing MCP finalizer" onboarding_cluster_interaction_problem)
        else pure tt

  -- The result at the end; without finalizers the ControlPlane is gone.
  unfoldable pub end_delete : Action client ControlPlaneResult
  end_delete = do
    create_con client condition_meta condition_true "" "MCP finalizer removed"
    d ← draft client
    pure (record {
      object = if eqb (length d.mcp.finalizers) 0 then none else some d.mcp;
      old_object = some d.old_object;
      conditions = d.conditions;
      conditions_to_remove = d.conditions_to_remove;
      requeue_after = pos 0;
      smart_requeue = d.smart_requeue;
      error = none;
    })

  -- `handleDelete` behind the ClusterRequests, the AccessRequests and the services.
  unfoldable pub delete_behind_requests : String → Action client ControlPlaneResult
  delete_behind_requests ns = do delete_namespace_fourth ns; remove_mcp_finalizer; end_delete

  unfoldable pub delete_behind_accesses :
      ControlPlaneConfig → String → Action client ControlPlaneResult
  delete_behind_accesses cfg ns = do delete_requests_third cfg ns; delete_behind_requests ns

  unfoldable pub delete_behind_services :
      ControlPlaneConfig → ControlPlane → Action client ControlPlaneResult
  delete_behind_services cfg mcp = do
    ns ← namespace_or_fail lib cp client mcp
    delete_accesses_second ns
    delete_behind_accesses cfg ns

  -- `handleDelete` behind the configuration.
  unfoldable pub delete_with : ControlPlaneConfig → ControlPlane → Action client ControlPlaneResult
  delete_with cfg mcp = do
    modify client (λ d. initial_draft cp cfg mcp)
    delete_services_first mcp
    delete_behind_services cfg mcp

  unfoldable pub handle_delete : ControlPlane → Action client ControlPlaneResult
  handle_delete mcp = do cfg ← config_or_fail lib cp client; delete_with cfg mcp
