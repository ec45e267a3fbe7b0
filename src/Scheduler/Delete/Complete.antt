-- ===== src/Scheduler/Delete/Complete.antt =====
-- `handleDelete` ends without an error only after every cluster that it listed was released.
use openmcp_operator.Prelude.{
  String, none, some, List, [], ◌∷◌, ◌++◌, true, ◌≡◌, refl, inl, inr, arith, subst, contains,
  select, sym,
}
use openmcp_operator.Flow.{Failure, next, found, Answer-cases, Outcome-cases}
use openmcp_operator.Api.Cluster.{Cluster}
use openmcp_operator.Api.Requests.{ClusterRequest, finalizer_for_cluster}
use openmcp_operator.Config.Labels.{Labels}
use openmcp_operator.Config.Selector.{completed}
use openmcp_operator.Config.Scheduler.{SchedulerConfig}
use openmcp_operator.Platform.{Library, LibraryLaws, Client}
use openmcp_operator.Scheduler.State.{ReconcileResult, with_finalizers}
use openmcp_operator.Scheduler.Writes.{Allowed, Keeps}
use openmcp_operator.Scheduler.Delete.{
  release_cluster, remove_from, remove_from_all, remove_request_finalizer, finish_delete,
  handle_delete,
}
use openmcp_operator.Scheduler.Delete.Releases.{
  may_delete, delete_keeps, all_keeps, remove_request_finalizer-Ends,
}

-- Every write is allowed.
abbrev pub anything : Allowed
anything = record {
  patches = λ c d. Unit {0};
  creates = λ c. Unit {0};
  updates = λ c. Unit {0};
  deletes = λ c. Unit {0};
}

-- The cluster without the finalizer.
abbrev pub released_of : Library → String → Cluster → Cluster
released_of lib fin c = with_finalizers c (lib.remove_finalizer c.finalizers fin).0

append_nil : {A : Type 0} (xs ys : List A) → xs ++ ys ≡ [] → (xs ≡ []) × (ys ≡ [])
append_nil [] ys h = (refl, h)
append_nil (x ∷ xs) ys h = grind arith

module _ {labels : Labels} (lib : Library) (laws : LibraryLaws lib) (client : Client labels)
    {P : client.World → Type 0} (keeps : Keeps client anything P) where
  weaken : (allowed : Allowed) → Keeps client allowed P
  weaken allowed = record {
    get_request = keeps.get_request;
    list_requests = keeps.list_requests;
    patch_request = keeps.patch_request;
    remove_operation_annotation = keeps.remove_operation_annotation;
    get_cluster = keeps.get_cluster;
    list_clusters = keeps.list_clusters;
    get_config = keeps.get_config;
    rand_int_n = keeps.rand_int_n;
    patch_cluster = λ c d w _ p. keeps.patch_cluster c d w tt p;
    create_cluster = λ c w _ p. keeps.create_cluster c w tt p;
    update_cluster = λ c w _ p. keeps.update_cluster c w tt p;
    delete_cluster = λ c w _ p. keeps.delete_cluster c w tt p;
  }

  -- `P` holds once the cluster is patched without the finalizer.
  abbrev Establishes : String → Cluster → Type 0
  Establishes fin c =
      (v : client.World) (d : Cluster)
      → (client.patch_cluster c (released_of lib fin c) v).0 ≡ found d
      → P (client.patch_cluster c (released_of lib fin c) v).1

  release_establishes :
      (fin : String) (c : Cluster) (w : client.World)
      → contains c.finalizers fin ≡ true
      → Establishes fin c
      → (release_cluster lib client fin c w).0.1 ≡ []
      → P (release_cluster lib client fin c w).1
  unfolding release_cluster
  release_establishes fin c w h est e =
      elim (Answer-cases (client.patch_cluster c (released_of lib fin c) w).0) [
        | inl (d, q) ↦ ground (arith, laws.remove_finalizer_changed c.finalizers fin, est w d q)
        | inr (inl q) ↦ ground (arith, laws.remove_finalizer_changed c.finalizers fin)
        | inr (inr (m, q)) ↦ ground (arith, laws.remove_finalizer_changed c.finalizers fin)
      ]

  loop_establishes :
      (fin : String) (c : Cluster) (before after : List Cluster) (w : client.World)
      → contains c.finalizers fin ≡ true
      → Establishes fin c
      → (remove_from_all lib client fin (before ++ c ∷ after) w).0 ≡ []
      → P (remove_from_all lib client fin (before ++ c ∷ after) w).1
  unfolding remove_from_all remove_from
  loop_establishes fin c [] after w h est e =
      let released = release_cluster lib client fin c w in
      let kept = weaken (may_delete lib fin) in
      all_keeps lib laws client fin kept after (remove_from lib client fin c w).1 (
        delete_keeps lib laws client fin kept released.0.0 released.1
          (release_establishes fin c w h est (append_nil released.0.1 _ (append_nil _ _ e).0).0))
  loop_establishes fin c (b ∷ before) after w h est e =
      loop_establishes fin c before after (remove_from lib client fin b w).1 h est
        (append_nil (remove_from lib client fin b w).0 _ e).1

  -- The end of the handler, with the errors of the loop.
  finish_keeps :
      (cr : ClusterRequest) (errs : List Failure) (w : client.World) (r : ReconcileResult)
      → (errs ≡ [] → P w)
      → (finish_delete lib client cr errs w).0 ≡ next r
      → r.error ≡ none
      → P (finish_delete lib client cr errs w).1
  unfolding finish_delete
  finish_keeps cr [] w r p h e = ground (
    arith,
    p refl,
    (remove_request_finalizer-Ends lib laws client cr
          (weaken (may_delete lib (finalizer_for_cluster cr)))).at
        w (p refl),
    h,
    Outcome-cases (remove_request_finalizer lib client cr w).0,
  )
  finish_keeps cr (e1 ∷ errs) w r p h e = ground (arith, h, e)

  -- Take a cluster that the handler listed and that carries the finalizer of the request, and a
  -- property that a successful patch removing this finalizer from it brings about and that every
  -- call keeps. If the handler goes on to the end without an error, the property holds there.
  pub handle_delete_releases :
      (cr : ClusterRequest) (w : client.World) (cfg : SchedulerConfig labels)
      → (cs before after : List Cluster) (c : Cluster) (r : ReconcileResult)
      → (client.get_config w).0 ≡ some (some cfg)
      → (client.list_clusters "" (completed labels cfg.cluster_selector) (client.get_config w).1).0
        ≡ found cs
      → select (λ d. contains d.finalizers (finalizer_for_cluster cr)) cs ≡ before ++ c ∷ after
      → contains c.finalizers (finalizer_for_cluster cr) ≡ true
      → Establishes (finalizer_for_cluster cr) c
      → (handle_delete lib client cr w).0 ≡ next r
      → r.error ≡ none
      → P (handle_delete lib client cr w).1
  unfolding handle_delete
  handle_delete_releases cr w cfg cs before after c r ec el es h est e er =
      let w1 = (client.get_config w).1 in
      let listed = client.list_clusters "" (completed labels cfg.cluster_selector) w1 in
      let fin = finalizer_for_cluster cr in
      let mine = select (λ d. contains d.finalizers fin) cs in
      let errs = remove_from_all lib client fin mine listed.1 in
      let released : errs.0 ≡ [] → P errs.1 = λ q.
        subst
          (λ xs.
            (remove_from_all lib client fin xs listed.1).0 ≡ []
            → P (remove_from_all lib client fin xs listed.1).1)
          (sym es) (loop_establishes fin c before after listed.1 h est) q in
      ground (arith, ec, el, e, er, released, finish_keeps cr errs.0 errs.1 r released)
