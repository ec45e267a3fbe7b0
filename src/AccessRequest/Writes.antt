-- ===== src/AccessRequest/Writes.antt =====
-- What the controller of AccessRequests writes.
use openmcp_operator.Prelude.{
  ℤ, String, none, some, Bool, true, false, ◌&&◌, ◌||◌, ◌≡◌, refl, inl, inr, arith, is_some, ap,
  ◌∙◌, Bool-cases,
}
use openmcp_operator.Flow.{found, Answer-cases, Outcome-cases}
use openmcp_operator.Flow.Run.{Run, After, Run-pure, Run-bind, Run-if, Run-mono}
use openmcp_operator.Api.Meta.{ObjectReference, provider_label, profile_label}
use openmcp_operator.Api.Cluster.{Cluster}
use openmcp_operator.Api.Requests.{AccessRequest}
use openmcp_operator.Platform.{Library, LibraryLaws}
use openmcp_operator.AccessRequest.State.{ClusterProfile, AccessClient, access_result, AccessAction}
use openmcp_operator.AccessRequest.Responsible.{is_responsible}
use openmcp_operator.AccessRequest.Reconcile.{
  with_labels, with_cluster_ref, check_responsible, handle_access_annotation, check_ttl,
  find_cluster_ref, fetch_cluster, fetch_profile, assign, complete_request, reconcile_found,
  reconcile,
}
use openmcp_operator.AccessRequest.Allowed.{
  KeepsAccess, may_assign, only_expire, NoObject, Runs, check_ttl-Runs, check_responsible-Runs,
  find_cluster_ref-Runs, fetch_cluster-Runs, fetch_profile-Runs,
}

module _ (lib : Library) (laws : LibraryLaws lib) (client : AccessClient)
    {P : client.World → Type 0} (keeps : KeepsAccess client (may_assign client) P) where
  handle_access_annotation-Runs :
      (only : Bool) (ar : AccessRequest)
      → Runs lib laws client
          (may_assign client)
          keeps
          only
          (handle_access_annotation lib client only ar)
  unfolding handle_access_annotation
  handle_access_annotation-Runs only ar = record {
    at = λ w p. ground (arith, p, keeps.remove_operation_annotation ar w tt p);
  }

  assigned_fields :
      (ar : AccessRequest) (c : Cluster) (provider profile : String)
      → (lib.ensure_label ar.labels provider_label provider).1 ≡ false
      → (lib.ensure_label
          (lib.ensure_label ar.labels provider_label provider).0
          profile_label
          profile).1
        ≡ false
      → (may_assign client).patches ar (
          with_cluster_ref
            (with_labels ar
              (lib.ensure_label
                (lib.ensure_label ar.labels provider_label provider).0
                profile_label
                profile).0)
            c)
  assigned_fields ar c provider profile h1 h2 =
      let first = (lib.ensure_label ar.labels provider_label provider).0 in
      let kept = laws.ensure_label_other first profile_label profile provider_label refl in
      let set1 = laws.ensure_label_get ar.labels provider_label provider h1 in
      let set2 = laws.ensure_label_get first profile_label profile h2 in
      (ap is_some (kept ∙ set1), ap is_some set2, ground arith, λ r e. ground (arith, e))

  assign-Runs :
      (requeue : ℤ) (ar : AccessRequest) (c : Cluster) (cp : ClusterProfile)
      → Runs lib laws client (may_assign client) keeps false (assign lib client requeue ar c cp)
  unfolding assign
  assign-Runs requeue ar c cp = record {
    at = λ w p.
        let first = lib.ensure_label ar.labels provider_label cp.provider_ref in
        let second = lib.ensure_label first.0 profile_label cp.name in
        let assigned = with_cluster_ref (with_labels ar second.0) c in
        elim (Bool-cases (first.1 || second.1)) [
          | inl e ↦ ground (arith, e, p)
          | inr e ↦ ground (
            arith,
            e,
            p,
            keeps.patch_access_request ar assigned w
                (assigned_fields ar c cp.provider_ref cp.name (ground (arith, e))
                  (ground (arith, e)))
                p,
          )
        ];
  }

  complete_request-Runs :
      (requeue : ℤ) (ar : AccessRequest)
      → Runs lib laws client
          (may_assign client)
          keeps
          false
          (complete_request lib client requeue ar)
  unfolding complete_request
  complete_request-Runs requeue ar =
      Run-bind (find_cluster_ref lib client requeue ar) _
        (find_cluster_ref-Runs lib laws client (may_assign client) keeps requeue ar)
        λ ref _.
          Run-bind (fetch_cluster lib client requeue ar ref) _
            (fetch_cluster-Runs lib laws client (may_assign client) keeps requeue ar ref)
            λ c _.
              Run-bind (fetch_profile lib client requeue ar c) _
                (fetch_profile-Runs lib laws client (may_assign client) keeps requeue ar c)
                λ cp _. assign-Runs requeue ar c cp

  abbrev Writes : {A : Type 0} → AccessAction client A → Type 0
  Writes m = Run P m (λ _. Unit {0}) (λ _. Unit {0})

  writes :
      {A : Type 0} (only : Bool) (m : AccessAction client A)
      → Runs lib laws client (may_assign client) keeps only m
      → Writes m
  writes only m = Run-mono (λ a u. u) (λ r e. tt) m

  found-Writes : (ar : AccessRequest) → Writes (reconcile_found lib client ar)
  unfolding reconcile_found
  found-Writes ar0 =
      Run-bind (check_responsible lib client ar0) _
        (writes true _ (check_responsible-Runs lib laws client (may_assign client) keeps ar0))
        λ only _.
          Run-bind (handle_access_annotation lib client only ar0) _
            (writes only _ (handle_access_annotation-Runs only ar0))
            λ ar _.
              Run-bind (check_ttl lib client only ar) _
                (writes only _ (check_ttl-Runs lib laws client (may_assign client) keeps only ar))
                λ requeue _.
                  Run-if only _ _ (λ _. Run-pure (access_result true requeue ar none) tt)
                    λ _.
                      Run-if
                        (lib.has_label ar.labels provider_label
                          && lib.has_label ar.labels profile_label
                          && is_some ar.cluster_ref)
                        _ _ (λ _. Run-pure (access_result false requeue ar none) tt)
                        λ _. writes false _ (complete_request-Runs requeue ar)

  -- Whatever the server answers and the clock says: the controller keeps every property of the world
  -- that its allowed writes keep. It deletes a request only directly behind a reading of the clock, at
  -- which more than its TTL has gone by since its creation, and only if it is not being deleted; and a
  -- patch sets the labels of provider and profile and the cluster reference, where a reference that
  -- was there stays.
  pub reconcile_writes :
      (req : ObjectReference) → Run P (reconcile lib client req) (λ _. Unit {0}) (λ _. Unit {0})
  unfolding reconcile reconcile_found
  reconcile_writes req = record {
    at = λ w p.
        let v = (client.get_access_request req w).1 in
        let q = keeps.get_access_request req w p in
        elim (Answer-cases (client.get_access_request req w).0) [
          | inl (ar, e) ↦ ground (arith, e, (found-Writes ar).at v q)
          | inr (inl e) ↦ ground (arith, e, q)
          | inr (inr (m, e)) ↦ ground (arith, e, q)
        ];
  }

module _ (lib : Library) (laws : LibraryLaws lib) (client : AccessClient)
    {P : client.World → Type 0} (keeps : KeepsAccess client (only_expire client) P) where
  -- A request for which some provider is responsible is at most deleted, and only directly behind a
  -- reading of the clock at which more than its TTL has gone by since its creation: the controller
  -- keeps every property of the world that reads and such deletions keep, patches nothing, and ends
  -- without an object whose status is written.
  pub provider_owned :
      (req : ObjectReference) (ar : AccessRequest) (w : client.World)
      → (client.get_access_request req w).0 ≡ found ar
      → is_responsible (some ar) "" ≡ true
      → P w
      → After P
          (NoObject client)
          (NoObject client)
          (reconcile lib client req w).0
          (reconcile lib client req w).1
  unfolding reconcile reconcile_found check_responsible handle_access_annotation
  provider_owned req ar w e h p =
      let v = (client.get_access_request req w).1 in
      let q = keeps.get_access_request req w p in
      ground (
        arith,
        e,
        h,
        q,
        (check_ttl-Runs lib laws client (only_expire client) keeps true ar).at v q,
        Outcome-cases (check_ttl lib client true ar v).0,
      )
