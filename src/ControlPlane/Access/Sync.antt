-- ===== src/ControlPlane/Access/Sync.antt =====
-- `syncAccessSecrets` and `secretName` (internal/controllers/controlplane/access.go).
use openmcp_operator.Prelude.{
  sub_ℕ, String, Option, none, some, List, [], ◌∷◌, Bool, true, false, ◌<>◌, is_some, if◌then◌else◌,
}
use openmcp_operator.Flow.{
  pure, finish, crash, ◌>>=◌, ◌>>◌, Answer, found, not_found, failed, Failure,
  onboarding_cluster_interaction_problem, platform_cluster_interaction_problem,
}
use openmcp_operator.Api.Meta.{Dict, items, get, or_empty, put}
use openmcp_operator.Api.Conditions.{condition_false, condition_true}
use openmcp_operator.Api.Requests.{AccessRequest, is_access_granted}
use openmcp_operator.Api.ControlPlane.{
  ControlPlane, Secret, mcp_name_label, mcp_namespace_label, managed_by_label, oidc_provider_label,
  token_provider_label, condition_prefix_access_ready, condition_all_access_ready,
}
use openmcp_operator.Platform.{Library}
use openmcp_operator.ControlPlane.State.{
  ControlPlaneLibrary, ControlPlaneClient, Step, call, draft, modify, with_mcp, create_con,
  error_con, failure_of,
}
use openmcp_operator.ControlPlane.Access.Desired.{
  AccessRequests, controller_name, waiting_for_access_request,
}

abbrev pub get_secret_failure : List Failure
get_secret_failure =
    failure_of "error getting AccessRequest secret" platform_cluster_interaction_problem

abbrev pub apply_secret_failure : List Failure
apply_secret_failure =
    failure_of "error creating/updating AccessRequest secret" onboarding_cluster_interaction_problem

-- The labels of the provider on a copied secret.
unfoldable pub provider_labels : AccessRequest → Dict → Dict
provider_labels ar ls =
    let with_oidc : Dict = elim ar.oidc [
      | none ↦ ls
      | some oidc ↦ put oidc_provider_label oidc.provider.name ls
    ] in
    if is_some ar.token
    then put token_provider_label (or_empty (get token_provider_label ar.labels)) with_oidc
    else with_oidc

-- The secret of an AccessRequest that is granted and has one.
unfoldable pub granted_secret : AccessRequest → Option String
unfolding is_access_granted
granted_secret ar = if is_access_granted ar then ar.secret_ref else none

-- The secret with the contents and the labels, before its owner is set.
unfoldable pub copied_secret : ControlPlane → AccessRequest → Secret → Secret → Secret
copied_secret mcp ar source s = record s {
  contents = source.contents;
  metadata = record s.metadata {
    labels = some (
        put managed_by_label controller_name (
          provider_labels ar (
            put mcp_namespace_label mcp.namespace (put mcp_name_label mcp.name (items s.labels)))));
  };
}

-- `mcp.Status.Access[provider] = ...`, on a map that is not nil.
unfoldable pub set_access : String → String → ControlPlane → ControlPlane
set_access provider name mcp = record mcp {
  status = record mcp.status { access = some (put provider name (items mcp.status.access)) };
}

module _ (lib : Library) (cp : ControlPlaneLibrary) (client : ControlPlaneClient) where
  -- `secretName`; `ShortenToXCharactersUnsafe` panics on an error.
  unfoldable pub secret_name : String → String → Option String
  secret_name provider mcp_name =
      elim (lib.shorten (cp.replace_all provider "_" "-" <> "." <> mcp_name)
        (sub_ℕ lib.k8s_max_name_length 11)) [ none ↦ none | some s ↦ some (s <> ".kubeconfig") ]

  unfoldable pub fail_sync : {A : Type 0} → String → String → List Failure → Step client A
  fail_sync provider message e = do
    error_con client cp (condition_prefix_access_ready <> provider) e
    create_con client condition_all_access_ready condition_false waiting_for_access_request message
    finish e

  -- The secret that was answered, or the error.
  unfoldable pub secret_or_fail :
      String → String → List Failure → Answer Secret → Step client Secret
  secret_or_fail provider message e (found s) = pure s
  secret_or_fail provider message e not_found = fail_sync provider message e
  secret_or_fail provider message e (failed m) = fail_sync provider message e

  -- The copy of a secret under a name, which is referenced.
  unfoldable pub write_copy : String → AccessRequest → Secret → String → Step client (Unit {0})
  write_copy provider ar source name = do
    d ← draft client
    written ← call client (
        client.apply_secret (record { name = name; namespace = d.mcp.namespace })
          (λ s. cp.set_controller_reference d.mcp (copied_secret d.mcp ar source s)))
    copy ←
        secret_or_fail provider
          ("Error creating/updating AccessRequest secret for OIDC provider " <> provider)
          apply_secret_failure written
    modify client (λ e. with_mcp (set_access provider copy.name e.mcp) e)
    create_con client (condition_prefix_access_ready <> provider) condition_true "" ""

  -- The secret of a granted AccessRequest is copied and referenced.
  unfoldable pub copy_secret : String → AccessRequest → String → Step client (Unit {0})
  copy_secret provider ar secret = do
    ans ← call client (client.get_secret (record { name = secret; namespace = ar.namespace }))
    source ←
        secret_or_fail provider
          ("Error getting AccessRequest secret for OIDC provider " <> provider) get_secret_failure
          ans
    d ← draft client
    elim (secret_name provider d.mcp.name) [
      | none ↦ crash
      | some name ↦ write_copy provider ar source name
    ]

  -- One AccessRequest: whether its access is ready.
  unfoldable pub sync_secret : String → AccessRequest → Step client Bool
  unfolding granted_secret
  sync_secret provider ar = elim (granted_secret ar) [
    | none ↦ (do
      create_con client (condition_prefix_access_ready <> provider) condition_false
          waiting_for_access_request "AccessRequest is not ready yet"
      pure false)
    | some secret ↦ (do copy_secret provider ar secret; pure true)
  ]

  unfoldable pub sync_secrets : Bool → AccessRequests → Step client Bool
  sync_secrets ready [] = pure ready
  sync_secrets ready ((provider, ar) ∷ ars) = do
    one ← sync_secret provider ar
    sync_secrets (if one then ready else false) ars

  -- A nil map is made first, so that it can be written to.
  unfoldable pub sync_access_secrets : AccessRequests → Step client Bool
  sync_access_secrets updated = do
    modify client (λ d.
        with_mcp
          (record d.mcp {
            status = record d.mcp.status { access = some (items d.mcp.status.access) };
          })
          d)
    ordered ← call client (client.range_order updated)
    sync_secrets true ordered
