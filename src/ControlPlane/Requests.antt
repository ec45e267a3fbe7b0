-- ===== src/ControlPlane/Requests.antt =====
-- `deleteRelatedClusterRequests` (internal/controllers/controlplane/clusters.go).
pub mod Kept
pub mod Last
pub mod Skip
pub mod Order
use openmcp_operator.Prelude.{
  String, Option, none, some, List, [], ◌∷◌, ◌++◌, Bool, true, false, ◌==◌, ◌&&◌, MapOf, set_at,
  delete_at, keys, insert, cut_prefix, is_some, length, ltb, if◌then◌else◌,
}
use openmcp_operator.Flow.{
  pure, ◌>>=◌, ◌>>◌, Answer, found, not_found, failed, Failure,
  platform_cluster_interaction_problem,
}
use openmcp_operator.Api.Cluster.{Cluster}
use openmcp_operator.Api.Requests.{ClusterRequest}
use openmcp_operator.Api.ControlPlane.{ControlPlane, cluster_request_finalizer_prefix}
use openmcp_operator.ControlPlane.State.{ControlPlaneClient, Step, call, failure_of, no_errors}

abbrev pub Requests : Type 0
Requests = MapOf ClusterRequest

abbrev pub get_request_failure : List Failure
get_request_failure = failure_of "error getting ClusterRequest" platform_cluster_interaction_problem

abbrev pub delete_request_failure : List Failure
delete_request_failure =
    failure_of "error deleting ClusterRequest" platform_cluster_interaction_problem

-- The names of the ClusterRequests that the finalizers stand for.
unfoldable pub request_names : List String → List String → List String
request_names names [] = names
request_names names (fin ∷ fins) =
    request_names
      (elim (cut_prefix fin cluster_request_finalizer_prefix) [
        | none ↦ names
        | some name ↦ insert name names
      ])
      fins

-- What the server found, if anything; other answers are logged.
abbrev pub found_only : {A : Type 0} → Answer A → Option A
found_only (found a) = some a
found_only not_found = none
found_only (failed e) = none

module _ (client : ControlPlaneClient) where
  -- The ClusterRequests that exist, with the map so far.
  unfoldable pub get_requests :
      String → Requests → List String → client.World → (Requests × List Failure) × client.World
  get_requests ns resources [] w = ((resources, []), w)
  get_requests ns resources (name ∷ names) w =
      let got = client.get_request (record { name = name; namespace = ns }) w in
      elim got.0 [
        | found cr ↦ get_requests ns (set_at name cr resources) names got.1
        | not_found ↦ get_requests ns resources names got.1
        | failed e ↦
            let rest = get_requests ns resources names got.1 in
            ((rest.0.0, get_request_failure ++ rest.0.1), rest.1)
      ]

  -- The cluster of the primary ClusterRequest, if it can be fetched.
  unfoldable pub primary_cluster :
      Option Cluster → ClusterRequest → client.World → Option Cluster × client.World
  primary_cluster cluster cr w = elim cr.status.cluster [
    | none ↦ (cluster, w)
    | some ref ↦ (found_only (client.get_cluster ref w).0, (client.get_cluster ref w).1)
  ]

  -- At the primary ClusterRequest its cluster is fetched.
  unfoldable pub visit_primary :
      String
      → String
      → ClusterRequest
      → Option Cluster
      → client.World
      → Option Cluster × client.World
  visit_primary primary name cr cluster w =
      if name == primary then primary_cluster cluster cr w else (cluster, w)

  -- The deletion of one ClusterRequest: the map without it if it is gone, and the error.
  unfoldable pub delete_request :
      String → ClusterRequest → Requests → client.World → (Requests × List Failure) × client.World
  delete_request name cr resources w =
      if is_some cr.deletion_timestamp
      then ((resources, []), w)
      else elim (client.delete_request cr w).0 [
        | found _ ↦ ((resources, []), (client.delete_request cr w).1)
        | not_found ↦ ((delete_at name resources, []), (client.delete_request cr w).1)
        | failed e ↦ ((resources, delete_request_failure), (client.delete_request cr w).1)
      ]

  -- The loop over the ClusterRequests, with the map and the primary cluster so far. The primary
  -- ClusterRequest is skipped as long as the map has another one.
  unfoldable pub delete_requests :
      String
      → Requests
      → Requests
      → Option Cluster
      → client.World
      → ((Requests × Option Cluster) × List Failure) × client.World
  delete_requests primary [] resources cluster w = (((resources, cluster), []), w)
  delete_requests primary ((name, cr) ∷ crs) resources cluster w =
      let fetched = visit_primary primary name cr cluster w in
      elim (name == primary && ltb 1 (length resources)) [
        | true ↦ delete_requests primary crs resources fetched.0 fetched.1
        | false ↦
            let round = delete_request name cr resources fetched.1 in
            let rest = delete_requests primary crs round.0.0 fetched.0 round.1 in
            ((rest.0.0, round.0.1 ++ rest.0.1), rest.1)
      ]

  -- The ClusterRequests of the names: the names that remain, and the primary cluster.
  unfoldable pub delete_named_requests :
      String → String → List String → Step client (List String × Option Cluster)
  delete_named_requests primary ns [] = pure ([], none)
  delete_named_requests primary ns (name ∷ names) = do
    ordered ← call client (client.range_order (name ∷ names))
    got ← call client (get_requests ns [] ordered)
    no_errors client got.1
    crs ← call client (client.range_order got.0)
    deleted ← call client (delete_requests primary crs got.0 none)
    no_errors client deleted.1
    pure (keys deleted.0.0, deleted.0.1)

  unfoldable pub delete_related_cluster_requests :
      ControlPlane → String → Step client (List String × Option Cluster)
  delete_related_cluster_requests mcp ns =
      delete_named_requests mcp.name ns (request_names [] mcp.finalizers)
