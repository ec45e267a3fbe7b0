-- ===== src/ControlPlane/Requests/Order.antt =====
-- As long as another ClusterRequest of a ControlPlane exists, the primary one is not deleted.
use openmcp_operator.Prelude.{
  String, none, List, [], ◌∷◌, true, false, ◌==◌, ◌≡◌, ◌≢◌, ◌⊎◌, inl, inr, arith, sym, subst,
  eq_iff, contains, keys, All, Bool-cases,
}
use mathlib.Core.List.{Permᴰ}
use openmcp_operator.Flow.{Failure, Exec}
use openmcp_operator.Flow.Run.{Run-pure, Run-bind}
use openmcp_operator.Api.Requests.{ClusterRequest}
use openmcp_operator.Api.ControlPlane.{ControlPlane}
use openmcp_operator.ControlPlane.State.{ControlPlaneClient, Stage, call, no_errors}
use openmcp_operator.ControlPlane.Requests.{
  Requests, request_names, get_requests, delete_requests, delete_named_requests,
  delete_related_cluster_requests,
}
use openmcp_operator.ControlPlane.Requests.Last.{GetLaw, Remains, Entry, get_requests-Fetched}
use openmcp_operator.ControlPlane.Requests.Skip.{delete_requests-skip}
use openmcp_operator.ControlPlane.Keeps.{
  Allowed, Keeps, RangeLaw, NonEmpty, All-Perm, Some, Some-Perm,
}
use openmcp_operator.ControlPlane.Runs.{Kept, Any, Kept-call, Kept-no_errors}

module _ (client : ControlPlaneClient) {allowed : Allowed} {P : client.World → Type 0}
    (keeps : Keeps client allowed P) (named : GetLaw client) (ns primary other : String)
    (apart : other ≢ primary)
    (others : (cr : ClusterRequest)
      → cr.name ≢ primary
      → cr.deletion_timestamp ≡ none
      → allowed.deletes_request cr) where
  -- A name that is in a list is in every order of it.
  contains-Some : (names : List String) → contains names other ≡ true → Some (λ n. n ≡ other) names
  unfolding contains
  contains-Some [] h = absurd (ground arith)
  contains-Some (n ∷ names) h = elim (Bool-cases (n == other)) [
    | inl e ↦ inl (ground (arith, e, eq_iff n other))
    | inr e ↦ inr (contains-Some names (ground (arith, e, h)))
  ]

  Some-contains : (names : List String) → Some (λ n. n ≡ other) names → contains names other ≡ true
  unfolding contains
  Some-contains [] h = absurd h
  Some-contains (n ∷ names) (inl h) = ground (arith, h, eq_iff n other)
  Some-contains (n ∷ names) (inr h) = ground (arith, Some-contains names h)

  contains-Perm :
      (names more : List String)
      → Permᴰ names more
      → contains names other ≡ true
      → contains more other ≡ true
  contains-Perm names more p h =
      Some-contains more (Some-Perm (λ n. n ≡ other) names more p (contains-Some names h))

  -- A name that is no key is none of an entry.
  absent-All :
      (Q : Type 0) (crs : Requests)
      → contains (keys crs) primary ≡ false
      → All (λ e. e.0 ≡ primary → Q) crs
  unfolding contains keys
  absent-All Q [] h = tt
  absent-All Q ((k, cr) ∷ crs) h =
      (λ e. absurd (ground (arith, h, e, eq_iff k primary)), absent-All Q crs (ground (arith, h)))

  known-All : (Q : Type 0) (crs : Requests) → Q → All (λ e. e.0 ≡ primary → Q) crs
  known-All Q [] q = tt
  known-All Q (e ∷ crs) q = (λ h. q, known-All Q crs q)

  self_waits : (crs : Requests) → All (λ e. e.0 ≡ primary → contains (keys crs) primary ≡ true) crs
  self_waits crs = elim (Bool-cases (contains (keys crs) primary)) [
    | inl e ↦ known-All _ crs e
    | inr e ↦ absent-All _ crs e
  ]

  nonempty_of_contains : (names : List String) → contains names other ≡ true → NonEmpty names
  unfolding contains
  nonempty_of_contains [] h = absurd (ground arith)
  nonempty_of_contains (n ∷ names) h = tt

  -- The map of the first loop behind its errors.
  record Loaded (got : Requests × List Failure) : Type 0 where
    entries : All (Entry client keeps named ns primary other apart others) got.0
    has : (contains (keys got.0) other ≡ true) ⊎ NonEmpty got.1

  here :
      (got : Requests × List Failure) → Loaded got → got.1 ≡ [] → contains (keys got.0) other ≡ true
  here got l e = elim l.has [ inl h ↦ h | inr h ↦ absurd (subst NonEmpty (e) h) ]

  loaded :
      (names : List String) (w : client.World)
      → Remains client keeps named ns primary other apart others
      → contains names other ≡ true
      → P w
      → Loaded (get_requests client ns [] names w).0
  loaded names w rem h p =
      let f =
        get_requests-Fetched client keeps named ns primary other apart others rem [] names w p tt in
      record { entries = f.entries; has = f.has (inr h) }

  -- What the second loop visits.
  record Visit (resources crs : Requests) : Type 0 where
    entries : All (Entry client keeps named ns primary other apart others) crs
    waits : All (λ e. e.0 ≡ primary → contains (keys resources) primary ≡ true) crs

  visited :
      (got : Requests × List Failure) {crs : Requests}
      → Loaded got
      → Permᴰ got.0 crs
      → Visit got.0 crs
  visited got l p = record {
    entries = All-Perm (Entry client keeps named ns primary other apart others) _ _ p l.entries;
    waits =
        All-Perm (λ e. e.0 ≡ primary → contains (keys got.0) primary ≡ true) _ _ p
          (self_waits got.0);
  }

  skipped :
      (crs resources : Requests) (w : client.World)
      → P w
      → Visit resources crs
      → contains (keys resources) other ≡ true
      → P (delete_requests client primary crs resources none w).1
        × (contains (keys (delete_requests client primary crs resources none w).0.0.0) other ≡ true)
  skipped crs resources w p v h =
      delete_requests-skip client keeps named ns primary other apart others crs resources none w p
        v.entries h v.waits

  abbrev StepOf :
      {A : Type 0} (M : ControlPlane → Type 0)
      → Exec (Stage client) (List Failure) A
      → (A → Type 0)
      → Type 0
  StepOf M m Q = Kept client P M m Q (Any client P M)

  named_remain :
      (M : ControlPlane → Type 0)
      → RangeLaw client
      → Remains client keeps named ns primary other apart others
      → (names : List String) → contains names other ≡ true
      → StepOf M (delete_named_requests client primary ns names) (λ r. NonEmpty r.0)
  unfolding delete_named_requests contains
  named_remain M law rem [] h = absurd (ground arith)
  named_remain M law rem (name ∷ names) h =
      Run-bind (call client (client.range_order (name ∷ names))) _
        (Kept-call client P M {Q = λ ordered. contains ordered other ≡ true}
          (client.range_order (name ∷ names)) (keeps.range_order String (name ∷ names))
          λ w p. contains-Perm (name ∷ names) _ (law String (name ∷ names) w) h)
        λ ordered k.
          Run-bind (call client (get_requests client ns [] ordered)) _
            (Kept-call client P M {Q = Loaded} (get_requests client ns [] ordered)
              (λ w p.
                (get_requests-Fetched client keeps named ns primary other apart others rem []
                  ordered w p tt).kept)
              λ w p. loaded ordered w rem k p)
            λ got l. Run-bind (no_errors client got.1) _ (Kept-no_errors client P M got.1) λ u e.
              Run-bind (call client (client.range_order got.0)) _
                (Kept-call client P M {Q = λ crs. Visit got.0 crs} (client.range_order got.0)
                  (keeps.range_order (String × ClusterRequest) got.0)
                  λ w p. visited got l (law (String × ClusterRequest) got.0 w))
                λ crs v.
                  Run-bind (call client (delete_requests client primary crs got.0 none)) _
                    (Kept-call client P M {Q = λ r. contains (keys r.0.0) other ≡ true}
                      (delete_requests client primary crs got.0 none)
                      (λ w p. (skipped crs got.0 w p v (here got l e)).0)
                      λ w p. (skipped crs got.0 w p v (here got l e)).1)
                    λ deleted d.
                      Run-bind (no_errors client deleted.1) _ (Kept-no_errors client P M deleted.1)
                        λ x y.
                          Run-pure (keys deleted.0.0, deleted.0.1)
                            (nonempty_of_contains (keys deleted.0.0) d)

  -- Take a property of the world under which another ClusterRequest than the primary one, for which
  -- the ControlPlane has a finalizer, exists, and which reads and deletions of other ClusterRequests
  -- that are not in deletion keep. Then `deleteRelatedClusterRequests` keeps it, so that it does not
  -- delete the primary ClusterRequest, and it returns an error or names that remain.
  pub primary_last :
      (M : ControlPlane → Type 0)
      → RangeLaw client
      → Remains client keeps named ns primary other apart others
      → (mcp : ControlPlane) → mcp.name ≡ primary
      → contains (request_names [] mcp.finalizers) other ≡ true
      → Kept client P M
          (delete_related_cluster_requests client mcp ns)
          (λ r. NonEmpty r.0)
          (Any client P M)
  unfolding delete_related_cluster_requests
  primary_last M law rem mcp same h =
      subst
        (λ n.
          StepOf M (delete_named_requests client n ns (request_names [] mcp.finalizers))
            (λ r. NonEmpty r.0))
        (sym same) (named_remain M law rem (request_names [] mcp.finalizers) h)
