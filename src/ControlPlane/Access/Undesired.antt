-- ===== src/ControlPlane/Access/Undesired.antt =====
-- `deleteUndesiredAccessRequests` and `deleteUndesiredAccessSecrets`
-- (internal/controllers/controlplane/access.go).
use openmcp_operator.Prelude.{
  String, Option, none, some, List, [], ◌∷◌, ◌++◌, ◌==◌, ◌<>◌, insert, is_some, value_at,
  if◌then◌else◌,
}
use openmcp_operator.Flow.{
  pure, finish, ◌>>=◌, ◌>>◌, Answer, found, not_found, failed, Failure,
  onboarding_cluster_interaction_problem, platform_cluster_interaction_problem,
}
use openmcp_operator.Api.Meta.{Dict, get, or_empty}
use openmcp_operator.Api.Conditions.{condition_false}
use openmcp_operator.Api.Requests.{AccessRequest}
use openmcp_operator.Api.ControlPlane.{
  ControlPlane, Secret, mcp_name_label, mcp_namespace_label, managed_by_label, oidc_provider_label,
  token_provider_label, oidc_name_prefix, token_name_prefix, condition_prefix_access_ready,
  condition_all_access_ready,
}
use openmcp_operator.ControlPlane.State.{
  ControlPlaneLibrary, ControlPlaneClient, Step, call, draft, modify, with_mcp, create_con,
  error_con, failure_of,
}
use openmcp_operator.ControlPlane.Access.Desired.{AccessRequests, controller_name}

abbrev pub waiting_for_access_request_deletion : String
waiting_for_access_request_deletion = "WaitingForAccessRequestDeletion"

-- `client.MatchingLabels` of what belongs to a ControlPlane.
abbrev pub matching_labels : ControlPlane → Dict
matching_labels mcp =
    (mcp_name_label, mcp.name)
    ∷ (mcp_namespace_label, mcp.namespace)
    ∷ (managed_by_label, controller_name)
    ∷ []

-- The provider that an AccessRequest was made for.
unfoldable pub request_provider : AccessRequest → String
request_provider ar =
    if is_some ar.token
    then token_name_prefix <> or_empty (get token_provider_label ar.labels)
    else elim ar.oidc [ none ↦ "<unknown>" | some oidc ↦ oidc_name_prefix <> oidc.provider.name ]

-- The provider that a secret was copied for; none where the labels name none or two.
unfoldable pub secret_provider : Secret → Option String
secret_provider s =
    let oidc = or_empty (get oidc_provider_label s.labels) in
    let token = or_empty (get token_provider_label s.labels) in
    if token == ""
    then (if oidc == "" then none else some (oidc_name_prefix <> oidc))
    else if oidc == ""
    then some (token_name_prefix <> token)
    else none

-- `delete(m, k)` on a map of texts.
unfoldable pub without : String → Dict → Dict
without k [] = []
without k ((j, v) ∷ m) = let rest = without k m in if j == k then rest else (j, v) ∷ rest

unfoldable pub without_all : List String → Dict → Dict
without_all [] m = m
without_all (k ∷ ks) m = without_all ks (without k m)

-- `delete` of each name from `mcp.Status.Access`; a nil map stays nil.
unfoldable pub drop_access : List String → ControlPlane → ControlPlane
drop_access ks mcp = elim mcp.status.access [
  | none ↦ mcp
  | some m ↦ record mcp { status = record mcp.status { access = some (without_all ks m) } }
]

module _ (cp : ControlPlaneLibrary) (client : ControlPlaneClient) where
  -- A list that has to succeed.
  abbrev pub need_list : {A : Type 0} → Answer (List A) → List Failure → Step client (List A)
  need_list ans e = elim ans [
    | found xs ↦ pure xs
    | not_found ↦ (do error_con client cp condition_all_access_ready e; finish e)
    | failed m ↦ (do error_con client cp condition_all_access_ready e; finish e)
  ]

  -- The error of a deletion, told by a condition; a missing object is none.
  abbrev pub deletion_errors :
      Answer (Unit {0}) → String → List Failure → Step client (List Failure)
  deletion_errors ans provider e = elim ans [
    | found _ ↦ pure []
    | not_found ↦ pure []
    | failed m ↦ (do error_con client cp (condition_prefix_access_ready <> provider) e; pure e)
  ]

  abbrev pub in_deletion : String → String → Step client (Unit {0})
  in_deletion provider message =
      create_con client (condition_prefix_access_ready <> provider) condition_false
        waiting_for_access_request_deletion message

  abbrev pub list_requests_failure : List Failure
  list_requests_failure =
      failure_of "error listing AccessRequests for ManagedControlPlane"
        platform_cluster_interaction_problem

  abbrev pub delete_request_failure : List Failure
  delete_request_failure =
      failure_of "error deleting AccessRequest" platform_cluster_interaction_problem

  abbrev pub list_secrets_failure : List Failure
  list_secrets_failure =
      failure_of "error listing secrets for ManagedControlPlane"
        onboarding_cluster_interaction_problem

  abbrev pub delete_secret_failure : List Failure
  delete_secret_failure =
      failure_of "error deleting access secret" onboarding_cluster_interaction_problem

  -- One AccessRequest that is not needed any more.
  unfoldable pub delete_access : AccessRequest → Step client (List Failure)
  unfolding request_provider
  delete_access ar =
      if is_some ar.deletion_timestamp
      then (do in_deletion (request_provider ar) "AccessRequest is being deleted"; pure [])
      else (do
        ans ← call client (client.delete_access_request ar)
        errs ← deletion_errors ans (request_provider ar) delete_request_failure
        in_deletion (request_provider ar) "AccessRequest is being deleted"
        pure errs)

  -- The loop over the AccessRequests, with the set of providers and the errors so far.
  unfoldable pub delete_accesses :
      AccessRequests
      → List AccessRequest
      → List String
      → List Failure
      → Step client (List String × List Failure)
  delete_accesses updated [] names errs = pure (names, errs)
  delete_accesses updated (ar ∷ ars) names errs =
      if is_some (value_at (request_provider ar) updated)
      then delete_accesses updated ars names errs
      else (do
        more ← delete_access ar
        delete_accesses updated ars (insert (request_provider ar) names) (errs ++ more))

  -- With errors, a condition says so and they are returned.
  abbrev pub settle : List String → List Failure → String → Step client (List String)
  settle names errs message = elim errs [
    | [] ↦ pure names
    | e ∷ es ↦ (do
      create_con client condition_all_access_ready condition_false
          waiting_for_access_request_deletion message
      finish (e ∷ es))
  ]

  -- The AccessRequests of the ControlPlane with a label.
  unfoldable pub list_owned_requests : String → String → Step client (List AccessRequest)
  list_owned_requests ns label = do
    d ← draft client
    ans ← call client (client.list_access_requests ns label (matching_labels d.mcp))
    need_list ans list_requests_failure

  unfoldable pub delete_undesired_requests : String → AccessRequests → Step client (List String)
  delete_undesired_requests ns updated = do
    oidc_ars ← list_owned_requests ns oidc_provider_label
    token_ars ← list_owned_requests ns token_provider_label
    result ← delete_accesses updated (oidc_ars ++ token_ars) [] []
    settle result.0 result.1 "Error deleting AccessRequests that are no longer needed"

  -- One secret that is not needed any more.
  unfoldable pub delete_secret : String → Secret → Step client (List Failure)
  delete_secret provider s =
      if is_some s.deletion_timestamp
      then (do in_deletion provider "AccessRequest secret is being deleted"; pure [])
      else (do
        ans ← call client (client.delete_secret s)
        errs ← deletion_errors ans provider delete_secret_failure
        in_deletion provider "access secret is being deleted"
        pure errs)

  unfoldable pub delete_secrets :
      AccessRequests
      → List Secret
      → List String
      → List Failure
      → Step client (List String × List Failure)
  delete_secrets updated [] names errs = pure (names, errs)
  delete_secrets updated (s ∷ ss) names errs = elim (secret_provider s) [
    | none ↦ delete_secrets updated ss names errs
    | some provider ↦
        if is_some (value_at provider updated) then delete_secrets updated ss names errs else (do
          more ← delete_secret provider s
          delete_secrets updated ss (insert provider names) (errs ++ more))
  ]

  -- The copied secrets of the ControlPlane with a label.
  unfoldable pub list_owned_secrets : String → Step client (List Secret)
  list_owned_secrets label = do
    d ← draft client
    ans ← call client (client.list_secrets d.mcp.namespace label (matching_labels d.mcp))
    need_list ans list_secrets_failure

  unfoldable pub delete_undesired_secrets : AccessRequests → Step client (List String)
  delete_undesired_secrets updated = do
    oidc_secrets ← list_owned_secrets oidc_provider_label
    token_secrets ← list_owned_secrets token_provider_label
    result ← delete_secrets updated (oidc_secrets ++ token_secrets) [] []
    names ← settle result.0 result.1 "Error deleting access secrets that are no longer needed"
    modify client (λ e. with_mcp (drop_access names e.mcp) e)
    pure names
