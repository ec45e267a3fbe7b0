-- ===== src/ControlPlane/Shared.antt =====
-- What `handleCreateOrUpdate` and `handleDelete` share: the result they begin with, the configuration,
-- the namespace on the platform cluster, the conditions of the cluster, and the patch of the
-- ControlPlane (internal/controllers/controlplane/controller.go).
use openmcp_operator.Prelude.{pos, String, Option, none, some, List, [], ◌∷◌, ◌<>◌}
use openmcp_operator.Flow.{
  pure, finish, ◌>>=◌, ◌>>◌, Failure, with_reason, configuration_problem, internal_error,
}
use openmcp_operator.Api.Conditions.{Condition}
use openmcp_operator.Api.Cluster.{Endpoint}
use openmcp_operator.Api.ControlPlane.{
  ControlPlane, condition_meta, condition_prefix_cluster_condition,
}
use openmcp_operator.Config.ControlPlane.{ControlPlaneConfig}
use openmcp_operator.Platform.{Library}
use openmcp_operator.ControlPlane.State.{
  ControlPlaneResult, ControlPlaneLibrary, ControlPlaneClient, Draft, Action, Attempt, done, erred,
  days, call, modify, draft, create_con, fail_con, need_con, failure_of, with_mcp,
}

-- `ReconcileResult{}`.
abbrev pub empty_result : ControlPlaneLibrary → ControlPlaneResult
empty_result cp = record {
  object = none;
  old_object = none;
  conditions = [];
  conditions_to_remove = [];
  requeue_after = pos 0;
  smart_requeue = cp.smart_requeue_zero;
  error = none;
}

-- `rr` as the handlers begin with it.
abbrev pub initial_draft : ControlPlaneLibrary → ControlPlaneConfig → ControlPlane → Draft
initial_draft cp cfg mcp = record {
  mcp = mcp;
  old_object = mcp;
  conditions = [];
  conditions_to_remove = [];
  requeue_after = days cfg.reconcile_mcp_every_x_days;
  smart_requeue = cp.smart_requeue_zero;
}

-- The status shows the exposed endpoints of a cluster.
abbrev pub with_endpoints : List Endpoint → ControlPlane → ControlPlane
with_endpoints es mcp = record mcp { status = record mcp.status { endpoints = es } }

module _ (lib : Library) (cp : ControlPlaneLibrary) (client : ControlPlaneClient) where
  -- `StableMCPNamespace`.
  unfoldable pub stable_mcp_namespace : String → String → Option String
  stable_mcp_namespace name namespace = elim (cp.k8s_name_uuid namespace name) [
    | none ↦ none
    | some res ↦ some ("mcp--" <> res)
  ]

  -- The conditions of a cluster on the ControlPlane.
  unfoldable pub sync_conditions : List Condition → Action client (Unit {0})
  sync_conditions [] = pure tt
  sync_conditions (con ∷ cons) = do
    create_con client (condition_prefix_cluster_condition <> con.con_type) con.status con.reason
        con.message
    sync_conditions cons

  -- The error of a helper, recorded in a condition.
  abbrev pub settled : {A : Type 0} → String → Attempt A → Action client A
  settled type (done a) = pure a
  settled type (erred e) = fail_con client cp type e

  unfoldable pub namespace_or_fail : ControlPlane → Action client String
  unfolding stable_mcp_namespace
  namespace_or_fail mcp = elim (stable_mcp_namespace mcp.name mcp.namespace) [
    | none ↦
        fail_con client cp condition_meta
          (failure_of "error computing MCP namespace on platform cluster" internal_error)
    | some ns ↦ pure ns
  ]

  -- A patch of the ControlPlane, which the answer of the server replaces.
  abbrev pub patch_mcp : ControlPlane → String → List Failure → Action client (Unit {0})
  patch_mcp old type e = do
    d ← draft client
    ans ← call client (client.patch_control_plane old d.mcp)
    patched ← need_con client cp ans type e
    modify client (with_mcp patched)

  -- The configuration, or the error that it could not be fetched.
  unfoldable pub config_or_fail : Action client ControlPlaneConfig
  config_or_fail = do
    config ← call client client.get_config
    elim config [
      | none ↦ finish (record (empty_result cp) {
        error = with_reason "error fetching managedcontrolplane config" configuration_problem;
      })
      | some cfg ↦ pure cfg
    ]
