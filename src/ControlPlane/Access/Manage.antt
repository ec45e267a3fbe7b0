-- ===== src/ControlPlane/Access/Manage.antt =====
-- `manageAccessRequests` (internal/controllers/controlplane/access.go).
use openmcp_operator.Prelude.{
  String, Option, none, some, List, [], ◌∷◌, Bool, not, ◌&&◌, ◌<>◌, contains, insert, keys, select,
  map, cut_prefix, length, eqb, if◌then◌else◌,
}
use openmcp_operator.Flow.{pure, ◌>>=◌, ◌>>◌}
use openmcp_operator.Api.Conditions.{Condition, condition_false, condition_true}
use openmcp_operator.Api.Requests.{ClusterRequest}
use openmcp_operator.Api.ControlPlane.{condition_prefix_access_ready, condition_all_access_ready}
use openmcp_operator.Platform.{Library}
use openmcp_operator.ControlPlane.State.{
  ControlPlaneLibrary, ControlPlaneClient, Step, draft, create_con,
}
use openmcp_operator.ControlPlane.Access.Desired.{
  AccessRequests, create_or_update_desired, waiting_for_access_request,
}
use openmcp_operator.ControlPlane.Access.Undesired.{
  delete_undesired_requests, delete_undesired_secrets, waiting_for_access_request_deletion,
}
use openmcp_operator.ControlPlane.Access.Sync.{sync_access_secrets}

-- The providers that have a condition.
unfoldable pub condition_providers : List String → List Condition → List String
condition_providers names [] = names
condition_providers names (con ∷ cons) =
    condition_providers
      (elim (cut_prefix con.con_type condition_prefix_access_ready) [
        | none ↦ names
        | some name ↦ insert name names
      ])
      cons

-- The conditions of AccessRequests that are neither required nor in deletion.
unfoldable pub conditions_to_remove : List Condition → List String → List String → List String
conditions_to_remove cons updated deleting =
    map (λ n. condition_prefix_access_ready <> n)
      (select (λ n. not (contains deleting n))
        (select (λ n. not (contains updated n)) (condition_providers [] cons)))

module _ (lib : Library) (cp : ControlPlaneLibrary) (client : ControlPlaneClient) where
  -- The condition of all accesses: whether everything is in the desired state, with the conditions
  -- to remove.
  unfoldable pub report_access :
      AccessRequests → List String → List String → Bool → Step client (Bool × List String)
  report_access updated requests secrets ready = do
    d ← draft client
    let everything = eqb (length requests) 0 && eqb (length secrets) 0 && ready
    if everything
        then create_con client condition_all_access_ready condition_true "" "All accesses are ready"
        else create_con client condition_all_access_ready condition_false
            (if ready then waiting_for_access_request_deletion else waiting_for_access_request)
            "Not all accesses are ready"
    pure (everything, conditions_to_remove d.mcp.status.conditions (keys updated) requests)

  unfoldable pub manage_access_requests :
      String → Option ClusterRequest → Step client (Bool × List String)
  manage_access_requests ns cr = do
    updated ← create_or_update_desired lib cp client ns cr
    requests ← delete_undesired_requests cp client ns updated
    ready ← sync_access_secrets lib cp client updated
    secrets ← delete_undesired_secrets cp client updated
    report_access updated requests secrets ready
