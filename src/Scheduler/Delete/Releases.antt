-- ===== src/Scheduler/Delete/Releases.antt =====
-- `handleDelete` writes only what it may, and releases every cluster before it ends without error.
use openmcp_operator.Prelude.{
  eqb, String, none, some, List, [], ◌∷◌, true, not, ◌&&◌, ◌==◌, ◌≡◌, refl, ◌⊎◌, inl, inr, arith,
  contains, is_some, select, Bool-cases, Option-cases,
}
use openmcp_operator.Flow.{Answer-cases}
use openmcp_operator.Flow.Run.{Run}
use openmcp_operator.Api.Meta.{cluster_request_finalizer, delete_without_requests_label}
use openmcp_operator.Api.Cluster.{Cluster, get_tenancy_count}
use openmcp_operator.Api.Requests.{ClusterRequest, finalizer_for_cluster}
use openmcp_operator.Config.Labels.{Labels}
use openmcp_operator.Config.Selector.{completed}
use openmcp_operator.Platform.{Library, LibraryLaws, Client}
use openmcp_operator.Scheduler.State.{ReconcileResult, with_finalizers, with_request_finalizers}
use openmcp_operator.Scheduler.Writes.{Allowed, Keeps}
use openmcp_operator.Scheduler.Delete.{
  release_cluster, delete_if_unused, remove_from, remove_from_all, remove_request_finalizer,
  finish_delete, handle_delete,
}

-- A patch removes the one finalizer and nothing else of the spec and the finalizers; a cluster is
-- deleted only without requests and with the label that allows it.
abbrev pub may_delete : Library → String → Allowed
may_delete lib fin = record {
  patches = λ c d.
      (d.spec ≡ c.spec)
      × ((g : String) → contains d.finalizers g ≡ (not (fin == g) && contains c.finalizers g));
  creates = λ c. ⊥;
  updates = λ c. ⊥;
  deletes = λ c.
      (get_tenancy_count c ≡ 0)
      × (lib.has_label_with_value c.labels delete_without_requests_label "true" ≡ true);
}

-- Without an error the result has no object any more.
abbrev pub Ended : ReconcileResult → Type 0
Ended r = (is_some r.error ≡ true) ⊎ (r.object ≡ none)

module _ {labels : Labels} (lib : Library) (laws : LibraryLaws lib) (client : Client labels)
    (fin : String) {P : client.World → Type 0} (keeps : Keeps client (may_delete lib fin) P) where
  release_keeps : (c : Cluster) (w : client.World) → P w → P (release_cluster lib client fin c w).1
  unfolding release_cluster
  release_keeps c w p =
      let fins = (lib.remove_finalizer c.finalizers fin).0 in
      ground (
        arith,
        keeps.patch_cluster c (with_finalizers c fins) w
            (refl, laws.remove_finalizer_contains c.finalizers fin) p,
      )

  pub delete_keeps : (c : Cluster) (w : client.World) → P w → P (delete_if_unused lib client c w).1
  unfolding delete_if_unused
  delete_keeps c w p =
      elim (Bool-cases (
        eqb (get_tenancy_count c) 0
        && lib.has_label_with_value c.labels delete_without_requests_label "true")) [
          | inl e ↦
              ground (arith, keeps.delete_cluster c w (ground (arith, e), ground (arith, e)) p)
          | inr e ↦ ground arith
        ]

  pub all_keeps :
      (cs : List Cluster) (w : client.World) → P w → P (remove_from_all lib client fin cs w).1
  unfolding remove_from_all remove_from
  all_keeps [] w p = p
  all_keeps (c ∷ cs) w p =
      let released = release_cluster lib client fin c w in
      all_keeps cs (remove_from lib client fin c w).1
        (delete_keeps released.0.0 released.1 (release_keeps c w p))

module _ {labels : Labels} (lib : Library) (laws : LibraryLaws lib) (client : Client labels)
    (cr : ClusterRequest) {P : client.World → Type 0}
    (keeps : Keeps client (may_delete lib (finalizer_for_cluster cr)) P) where
  pub remove_request_finalizer-Ends : Run P (remove_request_finalizer lib client cr) Ended Ended
  unfolding remove_request_finalizer
  remove_request_finalizer-Ends = record {
    at = λ w p.
        let fins = (lib.remove_finalizer cr.finalizers cluster_request_finalizer).0 in
        ground (arith, keeps.patch_request cr (with_request_finalizers cr fins) w p);
  }

  -- Whatever the server answers: `handleDelete` keeps every property of the world that its allowed
  -- writes keep (a patch of a cluster removes the finalizer of the request alone, a cluster is
  -- deleted only if it counts no request and has the label that allows it, none is created or
  -- updated), and its result has an error or no object.
  pub handle_delete_ends : Run P (handle_delete lib client cr) Ended Ended
  unfolding handle_delete finish_delete
  handle_delete_ends = record {
    at = λ w p.
        let w1 = (client.get_config w).1 in
        let p1 = keeps.get_config w p in
        elim (Option-cases (client.get_config w).0) [
          | inl e ↦ ground (arith, p1)
          | inr (none, e) ↦ ground (arith, p1)
          | inr (some cfg, e) ↦
              let listed = client.list_clusters "" (completed labels cfg.cluster_selector) w1 in
              let p2 = keeps.list_clusters "" (completed labels cfg.cluster_selector) w1 p1 in
              elim (Answer-cases listed.0) [
                | inl (cs, q) ↦
                    let mine = select (λ c. contains c.finalizers (finalizer_for_cluster cr)) cs in
                    let p3 =
                      all_keeps lib laws client (finalizer_for_cluster cr) keeps mine listed.1 p2 in
                    ground (
                      arith,
                      p1,
                      p2,
                      p3,
                      remove_request_finalizer-Ends.at
                          (remove_from_all lib client (finalizer_for_cluster cr) mine listed.1).1
                          p3,
                    )
                | inr (inl q) ↦ ground (arith, p1, p2)
                | inr (inr (m, q)) ↦ ground (arith, p1, p2)
              ]
        ];
  }
