-- ===== src/Api/Meta.antt =====
-- Object metadata as the Kubernetes API has it, Go maps of texts, and the constants of
-- api/constants/constants.go and api/clusters/v1alpha1/constants.go that the code compares with.
use openmcp_operator.Prelude.{
  ℕ, String, Option, none, some, List, [], ◌∷◌, ◌≡◌, refl, arith, ◌==◌, eq_iff, if◌then◌else◌,
}

-- A Go map from texts to texts; a key stands once.
abbrev pub Dict : Type 0
Dict = List (String × String)

unfoldable pub lookup : String → Dict → Option String
lookup k [] = none
lookup k ((j, v) ∷ m) = if j == k then some v else lookup k m

unfoldable pub put : String → String → Dict → Dict
put k v [] = (k, v) ∷ []
put k v ((j, w) ∷ m) = if j == k then (k, v) ∷ m else (j, w) ∷ put k v m

pub lookup-put :
    (k j v : String) (m : Dict) → lookup j (put k v m) ≡ (if k == j then some v else lookup j m)
unfolding lookup put
lookup-put k j v [] = refl
lookup-put k j v ((i, w) ∷ m) =
    ground (arith, eq_iff k j, eq_iff i k, eq_iff i j, lookup-put k j v m)

-- `none` is the nil map, which reads as empty and panics on a write.
abbrev pub GoMap : Type 0
GoMap = Option Dict

abbrev pub items : GoMap → Dict
items none = []
items (some m) = m

-- `v, ok := m[k]`.
abbrev pub get : String → GoMap → Option String
get k m = lookup k (items m)

-- `m[k]`, the zero value for a missing key.
abbrev pub or_empty : Option String → String
or_empty none = ""
or_empty (some v) = v

pub record ObjectMeta : Type 0 where
  pub name : String
  pub generate_name : String
  pub namespace : String
  pub uid : String
  pub generation : ℕ
  pub creation_timestamp : ℕ
  pub deletion_timestamp : Option ℕ
  pub labels : GoMap
  pub annotations : GoMap
  pub finalizers : List String

-- `metav1.ObjectMeta{}`.
abbrev pub empty_meta : ObjectMeta
empty_meta = record {
  name = "";
  generate_name = "";
  namespace = "";
  uid = "";
  generation = 0;
  creation_timestamp = 0;
  deletion_timestamp = none;
  labels = none;
  annotations = none;
  finalizers = [];
}

-- A reference to an object, and the key that the client looks it up by.
pub record ObjectReference : Type 0 where
  pub name : String
  pub namespace : String

abbrev pub key_of : ObjectMeta → ObjectReference
key_of m = record { name = m.name; namespace = m.namespace }

abbrev pub group_name : String
group_name = "clusters.openmcp.cloud"

abbrev pub request_finalizer_on_cluster_prefix : String
request_finalizer_on_cluster_prefix = "request.clusters.openmcp.cloud/"

abbrev pub cluster_request_finalizer : String
cluster_request_finalizer = "clusters.openmcp.cloud/request"

abbrev pub delete_without_requests_label : String
delete_without_requests_label = "clusters.openmcp.cloud/delete-without-requests"

abbrev pub randomize_cluster_name_label : String
randomize_cluster_name_label = "clusters.openmcp.cloud/randomize-cluster-name"

abbrev pub provider_label : String
provider_label = "clusters.openmcp.cloud/provider"

abbrev pub profile_label : String
profile_label = "clusters.openmcp.cloud/profile"

abbrev pub operation_annotation : String
operation_annotation = "openmcp.cloud/operation"

abbrev pub operation_ignore : String
operation_ignore = "ignore"

abbrev pub operation_reconcile : String
operation_reconcile = "reconcile"

abbrev pub metadata_prefix : String
metadata_prefix = "metadata.open-control-plane.io/"

abbrev pub tenancy_shared : String
tenancy_shared = "Shared"

abbrev pub tenancy_exclusive : String
tenancy_exclusive = "Exclusive"

abbrev pub request_pending : String
request_pending = "Pending"

abbrev pub request_granted : String
request_granted = "Granted"
