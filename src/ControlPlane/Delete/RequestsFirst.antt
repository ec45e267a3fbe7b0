-- ===== src/ControlPlane/Delete/RequestsFirst.antt =====
-- As long as another ClusterRequest of the ControlPlane exists, its deletion does not come to the
-- primary ClusterRequest, the namespace and its own finalizer.
use openmcp_operator.Prelude.{
  String, Option, none, some, List, [], ◌∷◌, true, ◌≡◌, ◌≢◌, ap, contains, is_some, ◌∙◌,
}
use openmcp_operator.Flow.{Outcome, next, stop, panic, continue, ◌>>=◌, ◌>>◌}
use openmcp_operator.Flow.Run.{After, Run-bind, into_bind}
use openmcp_operator.Api.Meta.{ObjectMeta}
use openmcp_operator.Api.Cluster.{Cluster}
use openmcp_operator.Api.ControlPlane.{ControlPlane, condition_all_cluster_requests_deleted}
use openmcp_operator.Config.ControlPlane.{ControlPlaneConfig}
use openmcp_operator.Platform.{Library}
use openmcp_operator.ControlPlane.State.{
  ControlPlaneResult, ControlPlaneLibrary, ControlPlaneClient, Stage, attempt,
}
use openmcp_operator.ControlPlane.Keeps.{Allowed, nothing, Keeps, RangeLaw, NonEmpty}
use openmcp_operator.ControlPlane.Runs.{Both, Kept, Any, Kept-attempt, Kept-wait_con}
use openmcp_operator.ControlPlane.Requests.{request_names, delete_related_cluster_requests}
use openmcp_operator.ControlPlane.Requests.Last.{GetLaw, Remains}
use openmcp_operator.ControlPlane.Requests.Order.{primary_last}
use openmcp_operator.ControlPlane.Access.Unneeded.{Deletes}
use openmcp_operator.ControlPlane.Shared.{settled, stable_mcp_namespace}
use openmcp_operator.ControlPlane.Delete.{
  show_primary, remove_request_finalizers, await_requests, delete_requests_third,
  delete_behind_requests, delete_behind_accesses, handle_delete,
}
use openmcp_operator.ControlPlane.Delete.Chain.{Nowhere, Here, Stops, forget, handle_delete-Kept}
use openmcp_operator.ControlPlane.Delete.Stages.{settled-Kept}
use openmcp_operator.ControlPlane.Delete.Finalizers.{
  Whatever, KeepsOthers, show_primary-Kept, remove_request_finalizers-Kept,
}

-- What is in no deletion yet may be deleted, but of the ClusterRequests not the primary one, and no
-- namespace; a patch of the ControlPlane keeps the finalizers that do not stand for ClusterRequests.
abbrev pub before_primary : String → Allowed
before_primary primary = record nothing {
  patches = KeepsOthers;
  deletes_service = λ s. s.deletion_timestamp ≡ none;
  deletes_secret = λ s. s.deletion_timestamp ≡ none;
  deletes_access = λ a. a.deletion_timestamp ≡ none;
  deletes_request = λ r. (r.name ≢ primary) × (r.deletion_timestamp ≡ none);
}

module _ (lib : Library) (cp : ControlPlaneLibrary) (client : ControlPlaneClient)
    (named : GetLaw client) (law : RangeLaw client) (mcp : ControlPlane) (ns other : String)
    (apart : other ≢ mcp.name) {P : client.World → Type 0}
    (keeps : Keeps client (before_primary mcp.name) P)
    (remains : Remains client keeps named ns mcp.name other apart (λ cr n d. (n, d)))
    (finalizer : contains (request_names [] mcp.finalizers) other ≡ true) where
  deletes : Deletes (before_primary mcp.name)
  deletes = record { access = λ a h. h; secret = λ s h. h }

  -- The ControlPlane at hand has the same name and finalizers.
  related :
      (c : ControlPlane)
      → c.metadata ≡ mcp.metadata
      → Kept client P
          (Here mcp)
          (delete_related_cluster_requests client c ns)
          (λ r. NonEmpty r.0)
          (Any client P (Here mcp))
  related c e =
      primary_last client keeps named ns mcp.name other apart (λ cr n d. (n, d)) (Here mcp) law
        remains c (ap (λ m. m.name) e)
        (ap (λ (m : ObjectMeta). contains (request_names [] m.finalizers) other) e ∙ finalizer)

  waits :
      (remaining : List String)
      → NonEmpty remaining
      → Kept client P Whatever
          (await_requests lib cp client remaining)
          Nowhere
          (Any client P Whatever)
  unfolding await_requests
  waits [] h = absurd h
  waits (n ∷ names) h = Kept-wait_con client P Whatever condition_all_cluster_requests_deleted _ _

  behind_related :
      (cfg : ControlPlaneConfig) (result : List String × Option Cluster)
      → NonEmpty result.0
      → Kept client P Whatever
          (show_primary lib cp client cfg result.1
            >> (remove_request_finalizers lib cp client result.0
                >> await_requests lib cp client result.0))
          Nowhere
          (Any client P Whatever)
  behind_related cfg result h =
      Run-bind (show_primary lib cp client cfg result.1)
        (λ u.
          remove_request_finalizers lib cp client result.0 >> await_requests lib cp client result.0)
        (show_primary-Kept lib cp client keeps (λ c d k. k) cfg result.1)
        λ u v.
          Run-bind (remove_request_finalizers lib cp client result.0)
            (λ x. await_requests lib cp client result.0)
            (remove_request_finalizers-Kept lib cp client keeps (λ c d k. k) result.0)
            λ x y. waits result.0 h

  continue-Stops :
      {A B : Type 0} (f : A → Stage client → Outcome ControlPlaneResult B × Stage client)
      → (o : Outcome ControlPlaneResult A) (s : Stage client)
      → After (Both client P Whatever) Nowhere (Any client P Whatever) o s
      → Stops client P (λ t. continue o f t) s
  continue-Stops f (next a) s h = absurd h.1
  continue-Stops f (stop r) s h = h
  continue-Stops f panic s h = h

  third-Stops :
      (cfg : ControlPlaneConfig) (s : Stage client)
      → Both client P (Here mcp) s
      → Stops client P (delete_requests_third lib cp client cfg ns) s
  unfolding delete_requests_third
  third-Stops cfg s p =
      into_bind (Both client P (Here mcp)) (Both client P Whatever) (forget client P (Here mcp))
        Nowhere (Any client P Whatever)
        (attempt client (delete_related_cluster_requests client s.1.mcp ns))
        (λ tried. settled lib cp client condition_all_cluster_requests_deleted tried >>= λ result.
          show_primary lib cp client cfg result.1
          >> (remove_request_finalizers lib cp client result.0
              >> await_requests lib cp client result.0))
        (Kept-attempt client P (Here mcp) (delete_related_cluster_requests client s.1.mcp ns)
          (related s.1.mcp p.1.0))
        (λ tried h v q.
          (Run-bind (settled lib cp client condition_all_cluster_requests_deleted tried)
              (λ result.
                show_primary lib cp client cfg result.1
                >> (remove_request_finalizers lib cp client result.0
                    >> await_requests lib cp client result.0))
              (settled-Kept lib cp client keeps Whatever condition_all_cluster_requests_deleted
                tried h)
              (behind_related cfg)).at
            v (q.0, tt))
        s p

  behind-Stops :
      (cfg : ControlPlaneConfig) (s : Stage client)
      → Both client P (Here mcp) s
      → Stops client P (delete_behind_accesses lib cp client cfg ns) s
  unfolding delete_behind_accesses
  behind-Stops cfg s p =
      continue-Stops (λ y. delete_behind_requests lib cp client ns)
        (delete_requests_third lib cp client cfg ns s).0
        (delete_requests_third lib cp client cfg ns s).1 (third-Stops cfg s p)

  -- Take a property of the world under which another ClusterRequest than the primary one, for which
  -- the ControlPlane in deletion has a finalizer, exists in its namespace, and which reads, deletions
  -- of what is not in deletion, other than the primary ClusterRequest and namespaces, and patches that
  -- remove finalizers of ClusterRequests alone keep. Then `handleDelete` keeps it and returns early.
  pub handle_delete_requests_first :
      is_some mcp.deletion_timestamp ≡ true
      → stable_mcp_namespace lib cp client mcp.name mcp.namespace ≡ some ns
      → Kept client P Whatever (handle_delete lib cp client mcp) Nowhere (Any client P Whatever)
  handle_delete_requests_first =
      handle_delete-Kept lib cp client law keeps deletes (λ t h. h) mcp ns behind-Stops
