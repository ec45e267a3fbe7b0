-- ===== src/ClusterAccess/Decided.antt =====
-- What the manager of cluster access writes and what it waits for.
use openmcp_operator.Prelude.{
  String, Option, none, some, List, [], ◌∷◌, Bool, true, ◌||◌, ◌≡◌, refl, inl, inr, arith, is_some,
  Option-cases, subst,
}
use openmcp_operator.Flow.{Answer, found, not_found, failed, Answer-cases, ask, ◌>>=◌}
use openmcp_operator.Flow.Run.{Run, After, Run-bind, Run-pure, Run-finish}
use openmcp_operator.Api.Meta.{ObjectReference, lookup}
use openmcp_operator.Api.Iam.{PermissionsRequest}
use openmcp_operator.Api.Requests.{
  ClusterRequest, AccessRequest, is_access_granted, is_access_denied,
}
use openmcp_operator.Api.ControlPlane.{managed_by_label}
use openmcp_operator.ClusterAccess.Names.{Texts}
use openmcp_operator.ClusterAccess.Mutators.{
  ClusterRequestMutator, mutate_metadata, mutate_cluster_request,
}
use openmcp_operator.ClusterAccess.Manager.{
  ManagerClient, ManagerConfig, ReferenceType, reference_to_cluster, reference_to_cluster_request,
  other_reference, Managed, expect, expect_some, request_key, create_cluster_for_access_request,
  test_access_request, test_request, apply_access, await_access, wait_for_cluster_access,
  create_and_wait_for_cluster, new_access_request, new_cluster_request,
}

-- A poll ends without an error only behind a test that was true, and with what that test left.
abbrev pub PollLaw : ManagerClient → Type 1
PollLaw client =
    (S : Type 0) (test : S → client.World → (Answer Bool × S) × client.World) (s : S)
    (w : client.World)
    → (client.poll test s w).0.0 ≡ found tt
    → (t : S) × (v : client.World) × ((test t v).0.0 ≡ found true)
      × ((test t v).0.1 ≡ (client.poll test s w).0.1)

-- A property of the world that reads and polls of tests that keep it keep, and that requests applied
-- under one key keep: ClusterRequests of the purpose, and AccessRequests.
pub record KeepsRequests (client : ManagerClient) (key : ObjectReference) (purpose : String)
    (P : client.World → Type 0) : Type 1 where
  pub get_request : (r : ObjectReference) (w : client.World) → P w → P (client.get_request r w).1
  pub get_access_request :
      (r : ObjectReference) (w : client.World) → P w → P (client.get_access_request r w).1
  pub get_secret : (r : ObjectReference) (w : client.World) → P w → P (client.get_secret r w).1
  pub poll :
      (S : Type 0) (test : S → client.World → (Answer Bool × S) × client.World)
      → ((s : S) (w : client.World) → P w → P (test s w).1)
      → (s : S) (w : client.World) → P w
      → P (client.poll test s w).1
  pub initialize_client :
      (n : String) (c : client.RestConfig) (w : client.World)
      → P w
      → P (client.initialize_client n c w).1
  pub apply_request :
      (f : ClusterRequest → Option ClusterRequest) (w : client.World)
      → ((cr new : ClusterRequest) → f cr ≡ some new → new.purpose ≡ purpose)
      → P w
      → P (client.apply_request key f w).1
  pub apply_access_request :
      (f : AccessRequest → Option AccessRequest) (w : client.World)
      → P w
      → P (client.apply_access_request key f w).1

-- Granted or denied, and with a secret.
abbrev pub Decided : AccessRequest → Type 0
Decided ar = ((is_access_granted ar || is_access_denied ar) ≡ true) × (is_some ar.secret_ref ≡ true)

-- A mutated ClusterRequest has the purpose.
purpose_set :
    (c : ClusterRequestMutator) (cr new : ClusterRequest)
    → mutate_cluster_request c cr ≡ some new
    → new.purpose ≡ c.purpose
unfolding mutate_cluster_request
purpose_set c cr new h = elim (Option-cases (mutate_metadata c.metadata cr.metadata)) [
  | inl e ↦ absurd (ground (arith, e, h))
  | inr (o, e) ↦ ground (arith, e, h)
]

module _ (texts : Texts) (client : ManagerClient) (m : ManagerConfig) where
  abbrev Anything : {A : Type 0} → A → Type 0
  Anything a = Unit

  test_true :
      (s : AccessRequest) (w : client.World)
      → (test_access_request texts client m s w).0.0 ≡ found true
      → (is_access_granted (test_access_request texts client m s w).0.1
          || is_access_denied (test_access_request texts client m s w).0.1)
        ≡ true
  unfolding test_access_request is_access_granted is_access_denied
  test_true s w h =
      elim (Answer-cases
        (client.get_access_request (record { name = s.name; namespace = s.namespace }) w).0) [
          | inl (ar, e) ↦ ground (arith, e, h)
          | inr (inl e) ↦ absurd (ground (arith, e, h))
          | inr (inr (t, e)) ↦ absurd (ground (arith, e, h))
        ]

  module _ {P : client.World → Type 0} {A B : Type 0} {Q : B → Type 0} where
    ask-Run :
        (f : client.World → A × client.World) (k : A → Managed client B)
        → ((w : client.World) → P w → P (f w).1)
        → ((a : A) → Run P (k a) Q Anything)
        → Run P (ask f >>= k) Q Anything
    ask-Run f k h n = record { at = λ w p. (n (f w).0).at (f w).1 (h w p) }

    expect-Run :
        (message : String) (ans : Answer A) (k : A → Managed client B)
        → ((a : A) → ans ≡ found a → Run P (k a) Q Anything)
        → Run P (expect client message ans >>= k) Q Anything
    expect-Run message (found a) k n = record { at = λ w p. (n a refl).at w p }
    expect-Run message not_found k n = record { at = λ w p. (p, tt) }
    expect-Run message (failed e) k n = record { at = λ w p. (p, tt) }

    expect_some-Run :
        (message : String) (o : Option A) (k : A → Managed client B)
        → ((a : A) → o ≡ some a → Run P (k a) Q Anything)
        → Run P (expect_some client message o >>= k) Q Anything
    expect_some-Run message (some a) k n = record { at = λ w p. (n a refl).at w p }
    expect_some-Run message none k n = record { at = λ w p. (p, tt) }

  module _ (law : PollLaw client) (local purpose : String) {P : client.World → Type 0}
      (keeps : KeepsRequests client (request_key texts client m local) purpose P) where
    secret_is_some :
        (ar : AccessRequest) (s : String) → ar.secret_ref ≡ some s → is_some ar.secret_ref ≡ true
    secret_is_some ar s e = ground (arith, e)

    create_cluster-Run :
        (name : String) (ar : AccessRequest)
        → Run P
            (create_cluster_for_access_request texts client m name ar)
            (λ a. is_some ar.secret_ref ≡ true)
            Anything
    unfolding create_cluster_for_access_request
    create_cluster-Run name ar =
        expect_some-Run "access request has no accessSecret reference" ar.secret_ref _ λ secret e.
          ask-Run (client.get_secret (record { name = secret; namespace = ar.namespace })) _
            (λ w p. keeps.get_secret _ w p)
            λ got. expect-Run "failed to get access accessSecret" got _ λ found_secret x.
              expect_some-Run "kubeconfig not found in accessSecret"
                (lookup "kubeconfig" found_secret.contents) _
                λ kubeconfig y.
                  expect_some-Run "failed to create rest config from kubeconfig bytes"
                    (client.rest_config kubeconfig) _
                    λ config z.
                      ask-Run (client.initialize_client name config) _
                        (λ w p. keeps.initialize_client name config w p)
                        λ access. record {
                          at = λ w p. kept access w p (secret_is_some ar secret e);
                        }
      where
        kept :
            (access : Option client.Access) (w : client.World)
            → P w
            → is_some ar.secret_ref ≡ true
            → After P
                (λ a. is_some ar.secret_ref ≡ true)
                Anything
                (expect_some client "failed to initialize client for cluster" access w).0
                (expect_some client "failed to initialize client for cluster" access w).1
        kept (some a) w p h = (p, h)
        kept none w p h = (p, tt)

    test_keeps :
        (s : AccessRequest) (w : client.World) → P w → P (test_access_request texts client m s w).1
    unfolding test_access_request
    test_keeps s w p =
        let key : ObjectReference = record { name = s.name; namespace = s.namespace } in
        let q = keeps.get_access_request key w p in
        elim (Answer-cases (client.get_access_request key w).0) [
          | inl (ar, e) ↦ ground (arith, e, q)
          | inr (inl e) ↦ ground (arith, e, q)
          | inr (inr (t, e)) ↦ ground (arith, e, q)
        ]

    -- Behind a poll without an error the request is granted or denied.
    abbrev EndsDecided : Answer (Unit {0}) × AccessRequest → Type 0
    EndsDecided polled =
        polled.0 ≡ found tt → (is_access_granted polled.1 || is_access_denied polled.1) ≡ true

    await_access-Run : Run P (await_access texts client m local) (λ r. Decided r.1) Anything
    unfolding await_access
    await_access-Run =
        let first = new_access_request (request_key texts client m local) in
        let test = test_access_request texts client m in
        Run-bind {Q = EndsDecided} (ask (client.poll test first)) _
          (record { at = λ w p. (keeps.poll AccessRequest test test_keeps first w p, known w) })
          λ polled h. expect-Run "failed to wait for AccessRequest" polled.0 _ λ u e.
            Run-bind (create_cluster_for_access_request texts client m local polled.1) _
              (create_cluster-Run local polled.1) λ a k. Run-pure (a, polled.1) (h e, k)
      where
        known :
            (w : client.World)
            → EndsDecided
                (client.poll
                  (test_access_request texts client m)
                  (new_access_request (request_key texts client m local))
                  w).0
        known w e =
            let (t, v, ok, last) =
              law AccessRequest (test_access_request texts client m)
                (new_access_request (request_key texts client m local)) w e in
            subst (λ ar. (is_access_granted ar || is_access_denied ar) ≡ true) last
              (test_true t v ok)

    apply_access-Run :
        (cluster request : Option ObjectReference) (permissions : Option (List PermissionsRequest))
        → Run P (apply_access texts client m local cluster request permissions) Anything Anything
    unfolding apply_access
    apply_access-Run cluster request permissions = record {
      at = λ w p. applied _ _ (keeps.apply_access_request _ w p);
    }
      where
        applied :
            (ans : Answer (Unit {0})) (v : client.World)
            → P v
            → After P Anything Anything
                (expect client "failed to create/update AccessRequest" ans v).0
                (expect client "failed to create/update AccessRequest" ans v).1
        applied (found u) v q = (q, tt)
        applied not_found v q = (q, tt)
        applied (failed e) v q = (q, tt)

    -- Take a property of the world that reads and polls keep, and the requests applied under the key
    -- of the local name. Then `WaitForClusterAccess` keeps it, and where it returns access, the
    -- AccessRequest it returns is granted or denied and has a secret.
    pub wait_for_cluster_access-Decided :
        (ref : ObjectReference) (type : ReferenceType)
        → (permissions : Option (List PermissionsRequest))
        → Run P
            (wait_for_cluster_access texts client m local ref type permissions)
            (λ r. Decided r.1)
            Anything
    unfolding wait_for_cluster_access
    wait_for_cluster_access-Decided ref reference_to_cluster permissions =
        Run-bind (apply_access texts client m local (some ref) none permissions) _
          (apply_access-Run (some ref) none permissions) λ u v. await_access-Run
    wait_for_cluster_access-Decided ref reference_to_cluster_request permissions =
        Run-bind (apply_access texts client m local none (some ref) permissions) _
          (apply_access-Run none (some ref) permissions) λ u v. await_access-Run
    wait_for_cluster_access-Decided ref (other_reference t) permissions = Run-finish _ tt

    test_request_keeps :
        (s : ClusterRequest) (w : client.World) → P w → P (test_request texts client m s w).1
    unfolding test_request
    test_request_keeps s w p =
        let key : ObjectReference = record { name = s.name; namespace = s.namespace } in
        let q = keeps.get_request key w p in
        elim (Answer-cases (client.get_request key w).0) [
          | inl (cr, e) ↦ ground (arith, e, q)
          | inr (inl e) ↦ ground (arith, e, q)
          | inr (inr (t, e)) ↦ ground (arith, e, q)
        ]

    -- Take a property of the world that reads and polls keep, and under the key of the local name the
    -- application of AccessRequests and of ClusterRequests of the purpose. Then
    -- `CreateAndWaitForCluster` keeps it, whether it returns access or an error.
    pub create_and_wait_for_cluster_writes :
        (permissions : Option (List PermissionsRequest))
        → Run P
            (create_and_wait_for_cluster texts client m local purpose permissions)
            Anything
            Anything
    unfolding create_and_wait_for_cluster
    create_and_wait_for_cluster_writes permissions =
        let key = request_key texts client m local in
        let mutate = mutate_cluster_request (record {
          name = key.name;
          namespace = key.namespace;
          purpose = purpose;
          metadata = some (client.with_labels ((managed_by_label, m.controller_name) ∷ []));
        }) in
        ask-Run (client.apply_request key mutate) _
          (λ w p. keeps.apply_request mutate w (purpose_set _) p)
          λ applied. expect-Run "failed to create/update ClusterRequest" applied _ λ u e.
            ask-Run (client.poll (test_request texts client m) (new_cluster_request key)) _
              (λ w p.
                keeps.poll ClusterRequest (test_request texts client m) test_request_keeps
                  (new_cluster_request key) w p)
              λ polled. expect-Run "failed to wait for ClusterRequest" polled.0 _ λ v x.
                Run-bind
                  (wait_for_cluster_access texts client m local key reference_to_cluster_request
                    permissions)
                  _ (wait_for_cluster_access-Decided key reference_to_cluster_request permissions)
                  λ granted d. Run-pure granted.0 tt
