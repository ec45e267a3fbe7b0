-- ===== src/Platform.antt =====
-- What the controllers call and the repository does not hold: the helpers of controller-runtime,
-- controller-utils and apimachinery, the client of the platform cluster, and the getters of the
-- configuration. Each is a parameter of the model, with its documented behaviour as a record of laws.
use Prim.Native.String.{len}
use openmcp_operator.Prelude.{
  ℕ, ℤ, pos, ◌≤◌, String, Option, some, List, Bool, true, false, not, ◌&&◌, ◌||◌, ◌==◌, ◌≡◌,
  contains, is_some, if◌then◌else◌,
}
use openmcp_operator.Flow.{Answer}
use openmcp_operator.Api.Meta.{GoMap, ObjectReference, get}
use openmcp_operator.Api.Cluster.{Cluster}
use openmcp_operator.Api.Requests.{ClusterRequest}
use openmcp_operator.Config.Labels.{Labels}
use openmcp_operator.Config.Scheduler.{SchedulerConfig}

-- Pure helpers. The finalizer functions of controllerutil work on the finalizers of an object and
-- say whether they changed them; `set_list` is `sets.List`, `merge` is `maputils.Merge`,
-- `set_metadata_entry` is `metav1.SetMetaDataLabel` and `SetMetaDataAnnotation`. `ensure_label` is
-- `ctrlutils.EnsureLabel` with a nil client: the labels after it, and whether it returned
-- MetadataEntryAlreadyExistsError. `shorten` is `ctrlutils.ShortenToXCharacters`.
pub record Library : Type 0 where
  pub add_finalizer : List String → String → List String × Bool
  pub contains_finalizer : List String → String → Bool
  pub remove_finalizer : List String → String → List String × Bool
  pub has_label_with_value : GoMap → String → String → Bool
  pub has_label : GoMap → String → Bool
  pub ensure_label : GoMap → String → String → GoMap × Bool
  pub set_metadata_entry : GoMap → String → String → GoMap
  pub merge : GoMap → GoMap → GoMap
  pub set_list : List String → List String
  pub name_hash : String → String → String
  pub shorten : String → ℤ → Option String
  pub k8s_max_name_length : ℕ

pub record LibraryLaws (lib : Library) : Type 0 where
  pub contains_finalizer_lem :
      (fins : List String) (f : String) → lib.contains_finalizer fins f ≡ contains fins f
  pub add_finalizer_contains :
      (fins : List String) (f g : String)
      → contains (lib.add_finalizer fins f).0 g ≡ (f == g || contains fins g)
  pub add_finalizer_present :
      (fins : List String) (f : String)
      → contains fins f ≡ true
      → lib.add_finalizer fins f ≡ (fins, false)
  pub add_finalizer_absent :
      (fins : List String) (f : String)
      → contains fins f ≡ false
      → (lib.add_finalizer fins f).1 ≡ true
  pub remove_finalizer_contains :
      (fins : List String) (f g : String)
      → contains (lib.remove_finalizer fins f).0 g ≡ (not (f == g) && contains fins g)
  pub remove_finalizer_changed :
      (fins : List String) (f : String) → (lib.remove_finalizer fins f).1 ≡ contains fins f
  pub shorten_len :
      (s t : String) (z : ℤ) → lib.shorten s z ≡ some t → (k : ℕ) × (z ≡ pos k) × (len t ≤ k)
  pub has_label_get : (m : GoMap) (k : String) → lib.has_label m k ≡ is_some (get k m)
  pub ensure_label_get :
      (m : GoMap) (k v : String)
      → (lib.ensure_label m k v).1 ≡ false
      → get k (lib.ensure_label m k v).0 ≡ some v
  pub ensure_label_other :
      (m : GoMap) (k v j : String) → (k == j) ≡ false → get j (lib.ensure_label m k v).0 ≡ get j m
  pub set_list_contains :
      (xs : List String) (a : String) → contains (lib.set_list xs) a ≡ contains xs a
  pub set_metadata_entry_get :
      (m : GoMap) (k v j : String)
      → get j (lib.set_metadata_entry m k v) ≡ (if k == j then some v else get j m)

-- The client of the platform cluster. A call answers and changes the world, in which other parties
-- act too. `patch` is given the object before and after the change, and answers with what the
-- server returns, which Go writes into the object. A list without a namespace is one of all.
-- `get_config` is the reconciler's `GetConfigFunc` (`none` is an error, the inner `none` a nil
-- pointer), and `rand_int_n` is `rand.IntN`.
pub record Client (labels : Labels) : Type 1 where
  pub World : Type 0
  pub get_request : ObjectReference → World → Answer ClusterRequest × World
  pub list_requests : World → Answer (List ClusterRequest) × World
  pub patch_request : ClusterRequest → ClusterRequest → World → Answer ClusterRequest × World
  pub remove_operation_annotation : ClusterRequest → World → Answer ClusterRequest × World
  pub get_cluster : ObjectReference → World → Answer Cluster × World
  pub list_clusters : String → labels.Compiled → World → Answer (List Cluster) × World
  pub patch_cluster : Cluster → Cluster → World → Answer Cluster × World
  pub create_cluster : Cluster → World → Answer Cluster × World
  pub update_cluster : Cluster → World → Answer Cluster × World
  pub delete_cluster : Cluster → World → Answer (Unit {0}) × World
  pub get_config : World → Option (Option (SchedulerConfig labels)) × World
  pub rand_int_n : ℕ → World → ℕ × World
