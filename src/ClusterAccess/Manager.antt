-- ===== src/ClusterAccess/Manager.antt =====
-- `managerImpl` (lib/clusteraccess/clusteraccess.go): its operations on the platform cluster.
use openmcp_operator.Prelude.{String, Option, none, some, List, [], ◌∷◌, Bool, ◌||◌}
use openmcp_operator.Flow.{pure, finish, ask, Exec, ◌>>=◌, ◌>>◌, Answer, found, not_found, failed}
use openmcp_operator.Api.Meta.{ObjectReference, Dict, lookup, empty_meta}
use openmcp_operator.Api.Iam.{PermissionsRequest}
use openmcp_operator.Api.Cluster.{Cluster}
use openmcp_operator.Api.Requests.{
  ClusterRequest, AccessRequest, is_granted, is_denied, is_access_granted, is_access_denied,
}
use openmcp_operator.Api.ControlPlane.{Secret, managed_by_label}
use openmcp_operator.ClusterAccess.Names.{Texts, stable_request_name_from_local_name}
use openmcp_operator.ClusterAccess.Mutators.{
  MetadataMutator, mutate_cluster_request, mutate_access_request,
}

-- What is called: the client of the platform cluster with `CreateOrUpdateResource`, which is given
-- the mutator, the poll until a test is true or fails or the time is over, a mutator that sets labels,
-- and how a client is made of a kubeconfig (`none` for an error).
pub record ManagerClient : Type 1 where
  pub World : Type 0
  pub RestConfig : Type 0
  pub Access : Type 0
  pub apply_request :
      ObjectReference → (ClusterRequest → Option ClusterRequest) → World → Answer (Unit {0}) × World
  pub apply_access_request :
      ObjectReference → (AccessRequest → Option AccessRequest) → World → Answer (Unit {0}) × World
  pub get_request : ObjectReference → World → Answer ClusterRequest × World
  pub get_access_request : ObjectReference → World → Answer AccessRequest × World
  pub get_cluster : ObjectReference → World → Answer Cluster × World
  pub get_secret : ObjectReference → World → Answer Secret × World
  pub poll :
      {S : Type 0}
      → (S → World → (Answer Bool × S) × World)
      → S
      → World
      → (Answer (Unit {0}) × S) × World
  pub with_labels : Dict → MetadataMutator
  pub rest_config : String → Option RestConfig
  pub initialize_client : String → RestConfig → World → Option Access × World

pub record ManagerConfig : Type 0 where
  pub controller_name : String
  pub controller_namespace : String

-- `ClusterReferenceType`, with the texts that are neither.
pub data ReferenceType : Type 0 where
  reference_to_cluster reference_to_cluster_request : ReferenceType
  other_reference : String → ReferenceType

-- An error is its fixed text.
abbrev pub Managed : ManagerClient → Type 0 → Type 0
Managed client A = Exec client.World String A

-- `if err := …; err != nil { return …, fmt.Errorf(message, err) }`.
abbrev pub expect : (client : ManagerClient) → {A : Type 0} → String → Answer A → Managed client A
expect client message (found a) = pure a
expect client message not_found = finish message
expect client message (failed e) = finish message

abbrev pub expect_some :
    (client : ManagerClient) → {A : Type 0} → String → Option A → Managed client A
expect_some client message (some a) = pure a
expect_some client message none = finish message

-- The objects that a poll begins with.
abbrev pub new_access_request : ObjectReference → AccessRequest
new_access_request key = record {
  metadata = record empty_meta { name = key.name; namespace = key.namespace };
  cluster_ref = none;
  request_ref = none;
  token = none;
  oidc = none;
  ttl = none;
  phase = "";
  observed_generation = 0;
  secret_ref = none;
}

abbrev pub new_cluster_request : ObjectReference → ClusterRequest
new_cluster_request key = record {
  metadata = record empty_meta { name = key.name; namespace = key.namespace };
  purpose = "";
  wait_for_cluster_deletion = none;
  status = record { phase = ""; cluster = none };
}

module _ (texts : Texts) (client : ManagerClient) (m : ManagerConfig) where
  -- The key of the requests for a local name.
  unfoldable pub request_key : String → ObjectReference
  unfolding stable_request_name_from_local_name
  request_key local = record {
    name = stable_request_name_from_local_name texts m.controller_name local "";
    namespace = m.controller_namespace;
  }

  -- `createClusterForAccessRequest`.
  unfoldable pub create_cluster_for_access_request :
      String → AccessRequest → Managed client client.Access
  create_cluster_for_access_request name ar = do
    secret ← expect_some client "access request has no accessSecret reference" ar.secret_ref
    got ← ask (client.get_secret (record { name = secret; namespace = ar.namespace }))
    found_secret ← expect client "failed to get access accessSecret" got
    kubeconfig ←
        expect_some client "kubeconfig not found in accessSecret"
          (lookup "kubeconfig" found_secret.contents)
    config ←
        expect_some client "failed to create rest config from kubeconfig bytes"
          (client.rest_config kubeconfig)
    access ← ask (client.initialize_client name config)
    expect_some client "failed to initialize client for cluster" access

  -- A test of the poll: the object is fetched again, and has to be granted or denied.
  unfoldable pub test_access_request :
      AccessRequest → client.World → (Answer Bool × AccessRequest) × client.World
  unfolding is_access_granted is_access_denied
  test_access_request s w =
      let got = client.get_access_request (record { name = s.name; namespace = s.namespace }) w in
      elim got.0 [
        | found ar ↦ ((found (is_access_granted ar || is_access_denied ar), ar), got.1)
        | not_found ↦ ((failed "failed to get AccessRequest", s), got.1)
        | failed e ↦ ((failed "failed to get AccessRequest", s), got.1)
      ]

  unfoldable pub test_request :
      ClusterRequest → client.World → (Answer Bool × ClusterRequest) × client.World
  unfolding is_granted is_denied
  test_request s w =
      let got = client.get_request (record { name = s.name; namespace = s.namespace }) w in
      elim got.0 [
        | found cr ↦ ((found (is_granted cr.status || is_denied cr.status), cr), got.1)
        | not_found ↦ ((failed "failed to get ClusterRequest", s), got.1)
        | failed e ↦ ((failed "failed to get ClusterRequest", s), got.1)
      ]

  -- The AccessRequest is applied with a reference to what it is for.
  unfoldable pub apply_access :
      String
      → Option ObjectReference
      → Option ObjectReference
      → Option (List PermissionsRequest)
      → Managed client (Unit {0})
  unfolding request_key
  apply_access local cluster request permissions = do
    let key = request_key local
    applied ← ask (
        client.apply_access_request key (
          mutate_access_request (record {
            name = key.name;
            namespace = key.namespace;
            request_ref = request;
            cluster_ref = cluster;
            token_permissions = permissions;
            token_role_refs = none;
            oidc_provider = none;
            oidc_additional_roles = none;
            metadata = some (client.with_labels ((managed_by_label, m.controller_name) ∷ []));
          })))
    expect client "failed to create/update AccessRequest" applied

  -- The poll of the AccessRequest, and the access that its secret gives.
  unfoldable pub await_access : String → Managed client (client.Access × AccessRequest)
  unfolding request_key
  await_access local = do
    polled ← ask (client.poll test_access_request (new_access_request (request_key local)))
    expect client "failed to wait for AccessRequest" polled.0
    access ← create_cluster_for_access_request local polled.1
    pure (access, polled.1)

  unfoldable pub wait_for_cluster_access :
      String
      → ObjectReference
      → ReferenceType
      → Option (List PermissionsRequest)
      → Managed client (client.Access × AccessRequest)
  wait_for_cluster_access local ref reference_to_cluster permissions = do
    apply_access local (some ref) none permissions
    await_access local
  wait_for_cluster_access local ref reference_to_cluster_request permissions = do
    apply_access local none (some ref) permissions
    await_access local
  wait_for_cluster_access local ref (other_reference t) permissions =
      finish "invalid ClusterReferenceType"

  unfoldable pub create_and_wait_for_cluster :
      String → String → Option (List PermissionsRequest) → Managed client client.Access
  unfolding request_key
  create_and_wait_for_cluster local purpose permissions = do
    let key = request_key local
    applied ← ask (
        client.apply_request key (
          mutate_cluster_request (record {
            name = key.name;
            namespace = key.namespace;
            purpose = purpose;
            metadata = some (client.with_labels ((managed_by_label, m.controller_name) ∷ []));
          })))
    expect client "failed to create/update ClusterRequest" applied
    polled ← ask (client.poll test_request (new_cluster_request key))
    expect client "failed to wait for ClusterRequest" polled.0
    granted ← wait_for_cluster_access local key reference_to_cluster_request permissions
    pure granted.0

  -- `AccessRequest`, `ClusterRequest`, `Cluster` and `Access` of the manager.
  unfoldable pub access_request : String → Managed client AccessRequest
  unfolding request_key
  access_request local = do
    got ← ask (client.get_access_request (request_key local))
    expect client "failed to get AccessRequest" got

  unfoldable pub cluster_request : String → Managed client ClusterRequest
  unfolding request_key
  cluster_request local = do
    got ← ask (client.get_request (request_key local))
    expect client "failed to get ClusterRequest" got

  unfoldable pub cluster_of_request : String → Managed client Cluster
  cluster_of_request local = do
    cr ← cluster_request local
    ref ← expect_some client "ClusterRequest does not reference a Cluster" cr.status.cluster
    got ← ask (client.get_cluster ref)
    expect client "failed to get Cluster" got

  unfoldable pub access : String → Managed client client.Access
  access local = do ar ← access_request local; create_cluster_for_access_request local ar
