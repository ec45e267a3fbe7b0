-- ===== src/ControlPlane/Requests/Kept.antt =====
-- `deleteRelatedClusterRequests` deletes ClusterRequests that are not in deletion, and writes nothing
-- else.
use openmcp_operator.Prelude.{
  String, Option, none, List, [], ◌∷◌, ◌==◌, ◌&&◌, ◌≡◌, inl, inr, arith, keys, set_at, is_some,
  length, ltb, Bool-cases, Option-cases,
}
use openmcp_operator.Flow.{Answer-cases}
use openmcp_operator.Flow.Run.{Run-pure, Run-bind}
use openmcp_operator.Api.Meta.{ObjectReference}
use openmcp_operator.Api.Cluster.{Cluster}
use openmcp_operator.Api.Requests.{ClusterRequest}
use openmcp_operator.Api.ControlPlane.{ControlPlane}
use openmcp_operator.ControlPlane.State.{ControlPlaneClient, call, no_errors}
use openmcp_operator.ControlPlane.Requests.{
  Requests, request_names, get_requests, primary_cluster, visit_primary, delete_request,
  delete_requests, delete_named_requests, delete_related_cluster_requests,
}
use openmcp_operator.ControlPlane.Keeps.{Allowed, Keeps}
use openmcp_operator.ControlPlane.Runs.{Kept, Any, Kept-read, Kept-no_errors}

module _ (client : ControlPlaneClient) {allowed : Allowed} {P : client.World → Type 0}
    (keeps : Keeps client allowed P) where
  primary_cluster-keeps :
      (cluster : Option Cluster) (cr : ClusterRequest) (w : client.World)
      → P w
      → P (primary_cluster client cluster cr w).1
  unfolding primary_cluster
  primary_cluster-keeps cluster cr w p = elim (Option-cases cr.status.cluster) [
    | inl e ↦ rw (e, primary_cluster) p
    | inr (ref, e) ↦ rw (e, primary_cluster) (keeps.get_cluster ref w p)
  ]

  pub visit_primary-keeps :
      (primary name : String) (cr : ClusterRequest) (cluster : Option Cluster) (w : client.World)
      → P w
      → P (visit_primary client primary name cr cluster w).1
  unfolding visit_primary
  visit_primary-keeps primary name cr cluster w p =
      ground (arith, p, primary_cluster-keeps cluster cr w p)

  get_requests-keeps :
      (ns : String) (resources : Requests) (names : List String) (w : client.World)
      → P w
      → P (get_requests client ns resources names w).1
  unfolding get_requests
  get_requests-keeps ns resources [] w p = p
  get_requests-keeps ns resources (name ∷ names) w p =
      let ref : ObjectReference = record { name = name; namespace = ns } in
      let got = client.get_request ref w in
      let q = keeps.get_request ref w p in
      elim (Answer-cases got.0) [
        | inl (cr, e) ↦
            rw (e, get_requests) (get_requests-keeps ns (set_at name cr resources) names got.1 q)
        | inr (inl e) ↦ rw (e, get_requests) (get_requests-keeps ns resources names got.1 q)
        | inr (inr (m, e)) ↦ rw (e, get_requests) (get_requests-keeps ns resources names got.1 q)
      ]

  module _
      (requests : (cr : ClusterRequest)
        → cr.deletion_timestamp ≡ none
        → allowed.deletes_request cr) where
    delete_request-keeps :
        (name : String) (cr : ClusterRequest) (resources : Requests) (w : client.World)
        → P w
        → P (delete_request client name cr resources w).1
    unfolding delete_request
    delete_request-keeps name cr resources w p = elim (Bool-cases (is_some cr.deletion_timestamp)) [
      | inl e ↦ rw (e, delete_request) p
      | inr e ↦ ground (
        arith,
        e,
        keeps.delete_request cr w (requests cr (ground (arith, e))) p,
        Answer-cases (client.delete_request cr w).0,
      )
    ]

    delete_requests-keeps :
        (primary : String) (crs resources : Requests) (cluster : Option Cluster) (w : client.World)
        → P w
        → P (delete_requests client primary crs resources cluster w).1
    unfolding delete_requests
    delete_requests-keeps primary [] resources cluster w p = p
    delete_requests-keeps primary ((name, cr) ∷ crs) resources cluster w p =
        let fetched = visit_primary client primary name cr cluster w in
        let q = visit_primary-keeps primary name cr cluster w p in
        let round = delete_request client name cr resources fetched.1 in
        elim (Bool-cases (name == primary && ltb 1 (length resources))) [
          | inl e ↦
              rw (e, delete_requests)
                (delete_requests-keeps primary crs resources fetched.0 fetched.1 q)
          | inr e ↦
              rw (e, delete_requests)
                (delete_requests-keeps primary crs round.0.0 fetched.0 round.1
                  (delete_request-keeps name cr resources fetched.1 q))
        ]

    named-Kept :
        (M : ControlPlane → Type 0) (primary ns : String) (names : List String)
        → Kept client P M
            (delete_named_requests client primary ns names)
            (Any client P M)
            (Any client P M)
    unfolding delete_named_requests
    named-Kept M primary ns [] = Run-pure ([], none) tt
    named-Kept M primary ns (name ∷ names) =
        Run-bind (call client (client.range_order (name ∷ names))) _
          (Kept-read client P M (client.range_order (name ∷ names))
            (keeps.range_order String (name ∷ names)))
          λ ordered u.
            Run-bind (call client (get_requests client ns [] ordered)) _
              (Kept-read client P M (get_requests client ns [] ordered)
                (get_requests-keeps ns [] ordered))
              λ got v. Run-bind (no_errors client got.1) _ (Kept-no_errors client P M got.1) λ x e.
                Run-bind (call client (client.range_order got.0)) _
                  (Kept-read client P M (client.range_order got.0)
                    (keeps.range_order (String × ClusterRequest) got.0))
                  λ crs y.
                    Run-bind (call client (delete_requests client primary crs got.0 none)) _
                      (Kept-read client P M (delete_requests client primary crs got.0 none)
                        (delete_requests-keeps primary crs got.0 none))
                      λ deleted z.
                        Run-bind (no_errors client deleted.1) _
                          (Kept-no_errors client P M deleted.1)
                          λ a f. Run-pure (keys deleted.0.0, deleted.0.1) tt

    pub related-Kept :
        (M : ControlPlane → Type 0) (mcp : ControlPlane) (ns : String)
        → Kept client P M
            (delete_related_cluster_requests client mcp ns)
            (Any client P M)
            (Any client P M)
    unfolding delete_related_cluster_requests
    related-Kept M mcp ns = named-Kept M mcp.name ns (request_names [] mcp.finalizers)
