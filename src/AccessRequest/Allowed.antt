-- ===== src/AccessRequest/Allowed.antt =====
-- What the controller of AccessRequests may write, and its parts that patch nothing.
use openmcp_operator.Prelude.{
  ℕ, ℤ, pos, negsuc, ◌+◌, ◌<◌, String, none, some, Bool, true, false, not, ◌&&◌, ◌≡◌, inl, inr,
  arith, is_some, Bool-cases, Option-cases,
}
use openmcp_operator.Flow.Run.{Run}
use openmcp_operator.Api.Meta.{ObjectReference, get, provider_label, profile_label}
use openmcp_operator.Api.Cluster.{Cluster}
use openmcp_operator.Api.Requests.{AccessRequest}
use openmcp_operator.Platform.{Library, LibraryLaws}
use openmcp_operator.AccessRequest.State.{AccessClient, AccessResult, AccessAction}
use openmcp_operator.AccessRequest.Ttl.{has_expired_ttl}
use openmcp_operator.AccessRequest.Reconcile.{
  check_responsible, check_ttl, find_cluster_ref, fetch_cluster, fetch_profile,
}

-- More time than the TTL has gone by between the creation and the time.
abbrev pub IsOver : ℕ → ℤ → ℕ → Type 0
IsOver created (pos ttl) t = created + ttl < t
IsOver created (negsuc k) t = created < t + k + 1

expired-IsOver :
    (ar : AccessRequest) (ttl : ℤ) (t : ℕ)
    → ar.ttl ≡ some ttl
    → (has_expired_ttl (some ar) t).0 ≡ true
    → IsOver ar.creation_timestamp ttl t
unfolding has_expired_ttl
expired-IsOver ar (pos n) t e h = ground (arith, e, h)
expired-IsOver ar (negsuc k) t e h = ground (arith, e, h)

module _ (client : AccessClient) where
  -- Which patches are allowed, and whether the annotation may be removed.
  pub record AllowedAccess : Type 1 where
    pub patches : AccessRequest → AccessRequest → Type 0
    pub removes_annotation : Type 0

  -- At a time, a request is past its creation by more than its TTL, and it is not being deleted.
  abbrev pub MayExpire : AccessRequest → ℕ → Type 0
  MayExpire ar t =
      (ar.deletion_timestamp ≡ none)
      × (ttl : ℤ) × (ar.ttl ≡ some ttl)
      × IsOver ar.creation_timestamp ttl t

  -- A property of the world that reads and allowed patches keep, and the deletion of a request that
  -- follows the reading of the clock, where the request may expire at the time that was read.
  pub record KeepsAccess (allowed : AllowedAccess) (P : client.World → Type 0) : Type 0 where
    pub get_access_request :
        (r : ObjectReference) (w : client.World) → P w → P (client.get_access_request r w).1
    pub get_request : (r : ObjectReference) (w : client.World) → P w → P (client.get_request r w).1
    pub get_cluster : (r : ObjectReference) (w : client.World) → P w → P (client.get_cluster r w).1
    pub get_profile : (n : String) (w : client.World) → P w → P (client.get_profile n w).1
    pub now : (w : client.World) → P w → P (client.now w).1
    pub remove_operation_annotation :
        (a : AccessRequest) (w : client.World)
        → allowed.removes_annotation
        → P w
        → P (client.remove_operation_annotation a w).1
    pub patch_access_request :
        (a b : AccessRequest) (w : client.World)
        → allowed.patches a b
        → P w
        → P (client.patch_access_request a b w).1
    pub delete_access_request :
        (a : AccessRequest) (w : client.World)
        → MayExpire a (client.now w).0
        → P w
        → P (client.delete_access_request a (client.now w).1).1

  -- A patch puts the labels of a provider and a profile and a cluster reference on the request,
  -- where a reference that was there stays.
  abbrev pub may_assign : AllowedAccess
  may_assign = record {
    patches = λ a b.
        (is_some (get provider_label b.labels) ≡ true)
        × (is_some (get profile_label b.labels) ≡ true)
        × (is_some b.cluster_ref ≡ true)
        × ((r : ObjectReference) → a.cluster_ref ≡ some r → b.cluster_ref ≡ some r);
    removes_annotation = Unit;
  }

  -- Nothing is patched.
  abbrev pub only_expire : AllowedAccess
  only_expire = record { patches = λ a b. ⊥; removes_annotation = ⊥ }

  -- The result has no object, so no status is written.
  abbrev pub NoObject : AccessResult → Type 0
  NoObject r = r.object ≡ none

module _ (lib : Library) (laws : LibraryLaws lib) (client : AccessClient)
    (allowed : AllowedAccess client) {P : client.World → Type 0}
    (keeps : KeepsAccess client allowed P) where
  -- Where only the TTL is checked, an early result has no object.
  abbrev pub Runs : Bool → {A : Type 0} → AccessAction client A → Type 0
  Runs only m = Run P m (λ _. Unit {0}) (λ r. only ≡ true → NoObject client r)

  may_expire :
      (ar : AccessRequest) (w : client.World)
      → (is_some ar.ttl
          && (has_expired_ttl (some ar) (client.now w).0).0
          && not (is_some ar.deletion_timestamp))
        ≡ true
      → MayExpire client ar (client.now w).0
  may_expire ar w e = elim (Option-cases ar.ttl) [
    | inl n ↦ absurd (ground (arith, n, e))
    | inr (ttl, s) ↦
        (ground (arith, e), ttl, s, expired-IsOver ar ttl (client.now w).0 s (ground (arith, e)))
  ]

  pub check_ttl-Runs : (only : Bool) (ar : AccessRequest) → Runs only (check_ttl lib client only ar)
  unfolding check_ttl
  check_ttl-Runs only ar = record {
    at = λ w p.
        let v = (client.now w).1 in
        let q = keeps.now w p in
        elim (Bool-cases (
          is_some ar.ttl
          && (has_expired_ttl (some ar) (client.now w).0).0
          && not (is_some ar.deletion_timestamp))) [
            | inl e ↦ ground (arith, e, keeps.delete_access_request ar w (may_expire ar w e) p)
            | inr e ↦ ground (arith, e, p, q, keeps.now v q)
          ];
  }

  pub check_responsible-Runs : (ar : AccessRequest) → Runs true (check_responsible lib client ar)
  unfolding check_responsible
  check_responsible-Runs ar = record { at = λ w p. ground (arith, p) }

  pub find_cluster_ref-Runs :
      (requeue : ℤ) (ar : AccessRequest) → Runs false (find_cluster_ref lib client requeue ar)
  unfolding find_cluster_ref
  find_cluster_ref-Runs requeue ar = record {
    at = λ w p. elim (Option-cases ar.request_ref) [
      | inl e ↦ ground (arith, p, e)
      | inr (request, e) ↦ ground (arith, p, e, keeps.get_request request w p)
    ];
  }

  pub fetch_cluster-Runs :
      (requeue : ℤ) (ar : AccessRequest) (ref : ObjectReference)
      → Runs false (fetch_cluster lib client requeue ar ref)
  unfolding fetch_cluster
  fetch_cluster-Runs requeue ar ref = record {
    at = λ w p. ground (arith, keeps.get_cluster ref w p);
  }

  pub fetch_profile-Runs :
      (requeue : ℤ) (ar : AccessRequest) (c : Cluster)
      → Runs false (fetch_profile lib client requeue ar c)
  unfolding fetch_profile
  fetch_profile-Runs requeue ar c = record {
    at = λ w p. ground (arith, keeps.get_profile c.spec.profile w p);
  }
