-- ===== src/ControlPlane/Delete/NamespaceFirst.antt =====
-- As long as the namespace of a ControlPlane exists, its own finalizer stays.
use openmcp_operator.Prelude.{
  String, Option, none, some, List, [], ◌∷◌, Bool, true, false, not, ◌&&◌, ◌≡◌, ◌≢◌, refl, inl, inr,
  arith, eq_iff, is_some,
}
use openmcp_operator.Flow.{Outcome, Answer, found, not_found, failed, Answer-cases, ◌>>=◌, ◌>>◌}
use openmcp_operator.Flow.Run.{Run-bind, Run-if}
use openmcp_operator.Api.Meta.{get, or_empty}
use openmcp_operator.Api.Cluster.{Cluster}
use openmcp_operator.Api.ControlPlane.{
  ControlPlane, Namespace, managed_by_label, condition_meta, condition_all_cluster_requests_deleted,
}
use openmcp_operator.Config.ControlPlane.{ControlPlaneConfig}
use openmcp_operator.Platform.{Library}
use openmcp_operator.ControlPlane.State.{
  ControlPlaneResult, ControlPlaneLibrary, ControlPlaneClient, Stage, Action, attempt,
}
use openmcp_operator.ControlPlane.Keeps.{Allowed, nothing, Keeps, RangeLaw}
use openmcp_operator.ControlPlane.Runs.{Kept, Any, Kept-attempt, Kept-wait_con, Kept-fail_con}
use openmcp_operator.ControlPlane.Requests.{delete_related_cluster_requests}
use openmcp_operator.ControlPlane.Requests.Kept.{related-Kept}
use openmcp_operator.ControlPlane.Access.Desired.{controller_name}
use openmcp_operator.ControlPlane.Access.Unneeded.{Deletes}
use openmcp_operator.ControlPlane.Shared.{settled, stable_mcp_namespace}
use openmcp_operator.ControlPlane.Delete.{
  show_primary, remove_request_finalizers, await_requests, delete_requests_third, owns_namespace,
  delete_owned_namespace, settle_namespace, await_namespace, delete_namespace_fourth,
  remove_mcp_finalizer, end_delete, delete_behind_requests, delete_behind_accesses, handle_delete,
}
use openmcp_operator.ControlPlane.Delete.Chain.{Nowhere, handle_delete-Kept}
use openmcp_operator.ControlPlane.Delete.Stages.{settled-Kept}
use openmcp_operator.ControlPlane.Delete.Finalizers.{
  Whatever, KeepsOthers, show_primary-Kept, remove_request_finalizers-Kept,
}

-- What is in no deletion yet may be deleted, of the namespaces those that the controller manages; a
-- patch of the ControlPlane keeps the finalizers that do not stand for ClusterRequests.
abbrev pub before_finalizer : Allowed
before_finalizer = record nothing {
  patches = KeepsOthers;
  deletes_service = λ s. s.deletion_timestamp ≡ none;
  deletes_secret = λ s. s.deletion_timestamp ≡ none;
  deletes_access = λ a. a.deletion_timestamp ≡ none;
  deletes_request = λ r. r.deletion_timestamp ≡ none;
  deletes_namespace = λ n.
      (n.deletion_timestamp ≡ none) × (or_empty (get managed_by_label n.labels) ≡ controller_name);
}

module _ (lib : Library) (cp : ControlPlaneLibrary) (client : ControlPlaneClient)
    (law : RangeLaw client) (mcp : ControlPlane) (ns : String) {P : client.World → Type 0}
    (keeps : Keeps client before_finalizer P)
    (there : (w : client.World) → P w → (client.get_namespace ns w).0 ≢ not_found) where
  abbrev Safe :
      {A : Type 0}
      → (Stage client → Outcome ControlPlaneResult A × Stage client)
      → (A → Type 0)
      → Type 0
  Safe m Q = Kept client P Whatever m Q (Any client P Whatever)

  owned-Safe :
      (c : ControlPlane) (n : Namespace)
      → Safe (delete_owned_namespace lib cp client c n) (λ u. Unit {0})
  unfolding delete_owned_namespace owns_namespace
  owned-Safe c n =
      Run-if (owns_namespace c n && not (is_some n.deletion_timestamp)) _ _
        (λ e. record {
          at = λ s p.
              let managed : or_empty (get managed_by_label n.labels) ≡ controller_name =
                ground
                  (arith, e, eq_iff (or_empty (get managed_by_label n.labels)) controller_name) in
              let q = keeps.delete_namespace n s.0 (ground (arith, e), managed) p.0 in
              elim (Answer-cases (client.delete_namespace n s.0).0) [
                | inl (u, a) ↦ rw a ((q, tt), tt)
                | inr (inl a) ↦ rw a ((q, tt), tt)
                | inr (inr (m, a)) ↦ rw a ((q, tt), tt)
              ];
        })
        λ e. record { at = λ s p. (p, tt) }

  settle-Safe :
      (c : ControlPlane) (got : Answer Namespace)
      → got ≢ not_found
      → Safe (settle_namespace lib cp client c got) (λ there. there ≡ true)
  unfolding settle_namespace
  settle-Safe c (found n) h =
      Run-bind (delete_owned_namespace lib cp client c n) _ (owned-Safe c n)
        λ u v. record { at = λ s p. (p, refl) }
  settle-Safe c not_found h = absurd (h refl)
  settle-Safe c (failed e) h = Kept-fail_con client P Whatever cp condition_meta _

  abbrev shown : ControlPlaneConfig → List String × Option Cluster → Action client (Unit {0})
  shown cfg result =
      show_primary lib cp client cfg result.1
      >> (remove_request_finalizers lib cp client result.0 >> await_requests lib cp client result.0)

  await_requests-Safe :
      (remaining : List String) → Safe (await_requests lib cp client remaining) (λ u. Unit {0})
  unfolding await_requests
  await_requests-Safe [] = record { at = λ s p. (p, tt) }
  await_requests-Safe (n ∷ names) =
      Kept-wait_con client P Whatever condition_all_cluster_requests_deleted _ _

  shown-Safe :
      (cfg : ControlPlaneConfig) (result : List String × Option Cluster)
      → Safe (shown cfg result) (λ u. Unit {0})
  shown-Safe cfg result =
      Run-bind (show_primary lib cp client cfg result.1)
        (λ u.
          remove_request_finalizers lib cp client result.0 >> await_requests lib cp client result.0)
        (show_primary-Kept lib cp client keeps (λ c d k. k) cfg result.1)
        λ u v.
          Run-bind (remove_request_finalizers lib cp client result.0)
            (λ x. await_requests lib cp client result.0)
            (remove_request_finalizers-Kept lib cp client keeps (λ c d k. k) result.0)
            λ x y. await_requests-Safe result.0

  await_namespace-Safe :
      (is_there : Bool) → is_there ≡ true → Safe (await_namespace lib cp client ns is_there) Nowhere
  unfolding await_namespace
  await_namespace-Safe true e = Kept-wait_con client P Whatever condition_meta _ _
  await_namespace-Safe false e = absurd (ground (arith, e))

  fourth-Safe : Safe (delete_namespace_fourth lib cp client ns) Nowhere
  unfolding delete_namespace_fourth
  fourth-Safe = record {
    at = λ s p.
        let got = client.get_namespace ns s.0 in
        (Run-bind (settle_namespace lib cp client s.1.mcp got.0) (await_namespace lib cp client ns)
            (settle-Safe s.1.mcp got.0 (there s.0 p.0)) await_namespace-Safe).at
          (got.1, s.1) (keeps.get_namespace ns s.0 p.0, tt);
  }

  third-Safe :
      (cfg : ControlPlaneConfig) → Safe (delete_requests_third lib cp client cfg ns) (λ u. Unit {0})
  unfolding delete_requests_third
  third-Safe cfg = record {
    at = λ s p.
        (Run-bind (attempt client (delete_related_cluster_requests client s.1.mcp ns))
            (λ tried.
              settled lib cp client condition_all_cluster_requests_deleted tried >>= λ result.
              shown cfg result)
            (Kept-attempt client P Whatever (delete_related_cluster_requests client s.1.mcp ns)
              (related-Kept client keeps (λ cr h. h) Whatever s.1.mcp ns))
            λ tried h.
              Run-bind (settled lib cp client condition_all_cluster_requests_deleted tried)
                (λ result. shown cfg result)
                (settled-Kept lib cp client keeps Whatever condition_all_cluster_requests_deleted
                  tried h)
                λ result u. shown-Safe cfg result).at
          s p;
  }

  behind_accesses-Safe :
      (cfg : ControlPlaneConfig) → Safe (delete_behind_accesses lib cp client cfg ns) Nowhere
  unfolding delete_behind_accesses delete_behind_requests
  behind_accesses-Safe cfg =
      Run-bind (delete_requests_third lib cp client cfg ns)
        (λ u. delete_behind_requests lib cp client ns) (third-Safe cfg)
        λ u v.
          Run-bind (delete_namespace_fourth lib cp client ns)
            (λ x. remove_mcp_finalizer lib cp client >> end_delete lib cp client) fourth-Safe
            λ x n. absurd n

  deletes : Deletes before_finalizer
  deletes = record { access = λ a h. h; secret = λ s h. h }

  -- Take a property of the world under which the namespace of a ControlPlane in deletion exists, and
  -- which reads, deletions of what is not in deletion, of the namespaces only those with the label of
  -- the controller, and patches that remove finalizers of ClusterRequests alone keep. Then
  -- `handleDelete` keeps it and returns early.
  pub handle_delete_namespace_first :
      is_some mcp.deletion_timestamp ≡ true
      → stable_mcp_namespace lib cp client mcp.name mcp.namespace ≡ some ns
      → Kept client P Whatever (handle_delete lib cp client mcp) Nowhere (Any client P Whatever)
  handle_delete_namespace_first =
      handle_delete-Kept lib cp client law keeps deletes (λ t h. h) mcp ns
        λ cfg s p. (behind_accesses-Safe cfg).at s (p.0, tt)
