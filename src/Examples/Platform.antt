-- ===== src/Examples/Platform.antt =====
-- A platform in memory: selectors with at most one label, the helpers of the libraries, and a client
-- whose world is one stored cluster with the writes so far.
use openmcp_operator.Prelude.{
  ℕ, ◌≤◌, String, Option, none, some, List, [], ◌∷◌, ◌++◌, Bool, true, false, not, ◌&&◌, ◌||◌, ◌==◌,
  ◌<>◌, ◌≡◌, ◌↔◌, inl, inr, refl, arith, All, contains, contains-append, select, is_some, eq_iff,
  eq_refl, ℤ, pos, negsuc, ltb, if◌then◌else◌, Bool-cases, Option-cases,
}
use openmcp_operator.Flow.{found}
use openmcp_operator.Api.Meta.{
  Dict, GoMap, items, get, lookup, put, lookup-put, empty_meta, cluster_request_finalizer,
  tenancy_shared,
}
use openmcp_operator.Api.Cluster.{Cluster, empty_cluster}
use openmcp_operator.Api.Requests.{ClusterRequest}
use openmcp_operator.Config.Labels.{Requirement, Labels, LabelsLaws}
use openmcp_operator.Config.Selector.{Selector, put_all}
use openmcp_operator.Config.Scheduler.{
  ClusterDefinition, SchedulerConfig, scope_cluster, strategy_balanced,
}
use openmcp_operator.Platform.{Library, LibraryLaws, Client}
use Prim.Native.String.{len}

abbrev one_label : Dict → List Requirement → Option (Option (String × String))
one_label [] [] = some none
one_label (e ∷ []) [] = some (some e)
one_label m rs = none

abbrev one_matches : Option (String × String) → GoMap → Bool
one_matches none m = true
one_matches (some (k, v)) m = elim (get k m) [ none ↦ false | some w ↦ w == v ]

abbrev pub labels_a : Labels
labels_a = record {
  Compiled = Option (String × String);
  everything = none;
  as_selector = λ ls. one_label (items ls.match_labels) ls.match_expressions;
  matches = one_matches;
  is_empty = λ s. not (is_some s);
  meets = λ r m. is_some (get r.key m);
}

one_matches_iff :
    (k v : String) (m : GoMap) → (one_matches (some (k, v)) m ≡ true) ↔ (get k m ≡ some v)
one_matches_iff k v m = elim (Option-cases (get k m)) [
  | inl e ↦ rw e (λ h. absurd (ground arith), λ h. absurd (ground arith))
  | inr (w, e) ↦ (λ h. ground (arith, h, e, eq_iff w v), λ h. ground (arith, h, e, eq_iff w v))
]

one_label_selects :
    (d : Dict) (rs : List Requirement) (s : Option (String × String)) (m : GoMap)
    → one_label d rs ≡ some s
    → (one_matches s m ≡ true) ↔ (
        ((k v : String) → lookup k d ≡ some v → get k m ≡ some v)
        × All (λ r. is_some (get r.key m) ≡ true) rs)
unfolding lookup
one_label_selects [] [] none m h = (λ _. (λ k v e. absurd (ground arith), tt), λ _. refl)
one_label_selects [] [] (some e) m h = absurd (ground arith)
one_label_selects ((k, v) ∷ []) [] none m h = absurd (ground arith)
one_label_selects ((k, v) ∷ []) [] (some (i, j)) m h =
    let same : (k ≡ i) × (v ≡ j) = ground arith in
    (
      λ q. (
        λ k' v' e. ground (arith, (one_matches_iff i j m).0 q, same.0, same.1, e, eq_iff k k'),
        tt,
      ),
      λ q.
          (one_matches_iff i j m).1
            (ground (arith, same.0, same.1, q.0 k v (ground (arith, eq_refl k)))),
    )
one_label_selects [] (r ∷ rs) s m h = absurd (ground arith)
one_label_selects (e ∷ []) (r ∷ rs) s m h = absurd (ground arith)
one_label_selects (e ∷ f ∷ d) rs s m h = absurd (ground arith)

everything_matches :
    (s : Option (String × String)) (m : GoMap) → not (is_some s) ≡ true → one_matches s m ≡ true
everything_matches none m h = refl
everything_matches (some e) m h = absurd (ground arith)

pub labels_a_laws : LabelsLaws labels_a
labels_a_laws = record {
  everything_matches = λ m. refl;
  is_empty_matches = everything_matches;
  as_selector_matches = λ ls. one_label_selects (items ls.match_labels) ls.match_expressions;
}

abbrev add : List String → String → List String × Bool
add fins f = if contains fins f then (fins, false) else (fins ++ f ∷ [], true)

abbrev shorten : String → ℤ → Option String
shorten s (pos k) = if ltb k (len s) then none else some s
shorten s (negsuc k) = none

abbrev pub library_a : Library
library_a = record {
  add_finalizer = add;
  contains_finalizer = contains;
  remove_finalizer = λ fins f. (select (λ g. not (f == g)) fins, contains fins f);
  has_label_with_value = λ m k v. elim (get k m) [ none ↦ false | some w ↦ w == v ];
  has_label = λ m k. is_some (get k m);
  ensure_label = λ m k v. elim (get k m) [
    | none ↦ (some (put k v (items m)), false)
    | some w ↦ (m, not (w == v))
  ];
  set_metadata_entry = λ m k v. some (put k v (items m));
  merge = λ a b. some (put_all (items a) (items b));
  set_list = λ xs. xs;
  name_hash = λ a b. a <> b;
  shorten = shorten;
  k8s_max_name_length = 63;
}

contains-add :
    (fins : List String) (f g : String) → contains (add fins f).0 g ≡ (f == g || contains fins g)
unfolding contains
contains-add fins f g = elim (Bool-cases (contains fins f)) [
  | inl e ↦ rw e (ground (arith, eq_iff f g, e))
  | inr e ↦ rw e (ground (arith, contains-append fins (f ∷ []) g, eq_iff f g))
]

contains-select :
    (fins : List String) (f g : String)
    → contains (select (λ h. not (f == h)) fins) g ≡ (not (f == g) && contains fins g)
unfolding contains select
contains-select [] f g = ground arith
contains-select (h ∷ fins) f g =
    ground (arith, contains-select fins f g, eq_iff f h, eq_iff h g, eq_iff f g)

shorten_fits : (s t : String) (z : ℤ) → shorten s z ≡ some t → (k : ℕ) × (z ≡ pos k) × (len t ≤ k)
shorten_fits s t (pos k) h = (k, refl, ground (arith, h))
shorten_fits s t (negsuc k) h = absurd (ground arith)

abbrev ensure : GoMap → String → String → GoMap × Bool
ensure m k v = elim (get k m) [
  | none ↦ (some (put k v (items m)), false)
  | some w ↦ (m, not (w == v))
]

get-ensure : (m : GoMap) (k v : String) → (ensure m k v).1 ≡ false → get k (ensure m k v).0 ≡ some v
get-ensure m k v h = elim (Option-cases (get k m)) [
  | inl e ↦ ground (arith, e, lookup-put k k v (items m), eq_refl k)
  | inr (w, e) ↦ ground (arith, e, h, eq_iff w v)
]

get-ensure_other :
    (m : GoMap) (k v j : String) → (k == j) ≡ false → get j (ensure m k v).0 ≡ get j m
get-ensure_other m k v j h = elim (Option-cases (get k m)) [
  | inl e ↦ ground (arith, e, h, lookup-put k j v (items m))
  | inr (w, e) ↦ ground (arith, e)
]

pub library_a_laws : LibraryLaws library_a
library_a_laws = record {
  contains_finalizer_lem = λ fins f. refl;
  add_finalizer_contains = contains-add;
  add_finalizer_present = λ fins f h. rw h refl;
  add_finalizer_absent = λ fins f h. rw h refl;
  remove_finalizer_contains = contains-select;
  remove_finalizer_changed = λ fins f. refl;
  shorten_len = shorten_fits;
  has_label_get = λ m k. refl;
  ensure_label_get = get-ensure;
  ensure_label_other = get-ensure_other;
  set_list_contains = λ xs a. refl;
  set_metadata_entry_get = λ m k v j. lookup-put k j v (items m);
}

-- The stored cluster and the writes so far.
pub record Memory : Type 0 where
  pub stored : Cluster
  pub patched : List Cluster
  pub deleted : List Cluster

abbrev pub request_a : ClusterRequest
request_a = record {
  metadata = record empty_meta {
    name = "request";
    namespace = "team";
    uid = "a";
    finalizers = cluster_request_finalizer ∷ [];
    labels = some (("metadata.open-control-plane.io/owner", "x") ∷ []);
  };
  purpose = "mcp";
  wait_for_cluster_deletion = none;
  status = record { phase = ""; cluster = none };
}

abbrev pub cluster_a : Cluster
cluster_a = record empty_cluster {
  metadata = record empty_meta {
    name = "shared";
    namespace = "clusters";
    labels =
        some (("stage", "dev") ∷ ("clusters.openmcp.cloud/delete-without-requests", "true") ∷ []);
    finalizers = "request.clusters.openmcp.cloud/b" ∷ [];
  };
  spec = record empty_cluster.spec { purposes = "mcp" ∷ []; tenancy = tenancy_shared };
}

-- The same cluster in use by the request.
abbrev pub cluster_used : Cluster
cluster_used = record cluster_a {
  metadata = record cluster_a.metadata { finalizers = "request.clusters.openmcp.cloud/a" ∷ [] };
}

abbrev pub selector_a : Selector labels_a
selector_a = record {
  label_selector =
      some (record { match_labels = some (("stage", "dev") ∷ []); match_expressions = [] });
  completed = none;
}

abbrev pub definition_a : ClusterDefinition labels_a
definition_a = record {
  tenancy_count = pos 2;
  template = record {
    metadata = record empty_meta { labels = some (("stage", "dev") ∷ []) };
    spec = record empty_cluster.spec {
      profile = "small";
      purposes = "mcp" ∷ [];
      tenancy = tenancy_shared;
    };
  };
  selector = some selector_a;
}

abbrev pub config_a : SchedulerConfig labels_a
config_a = record {
  scope = scope_cluster;
  strategy = strategy_balanced;
  cluster_selector = none;
  request_selector = none;
  purpose_mappings = ("mcp", some definition_a) ∷ [];
}

abbrev pub client_a : Client labels_a
client_a = record {
  World = Memory;
  get_request = λ r w. (found request_a, w);
  list_requests = λ w. (found (request_a ∷ []), w);
  patch_request = λ a b w. (found b, w);
  remove_operation_annotation = λ a w. (found a, w);
  get_cluster = λ r w. (found w.stored, w);
  list_clusters = λ n s w. (found (w.stored ∷ []), w);
  patch_cluster = λ c d w. (found d, record w { stored = d; patched = d ∷ w.patched });
  create_cluster = λ c w. (found c, record w { stored = c });
  update_cluster = λ c w. (found c, record w { stored = c });
  delete_cluster = λ c w. (found tt, record w { deleted = c ∷ w.deleted });
  get_config = λ w. (some (some config_a), w);
  rand_int_n = λ n w. (0, w);
}

abbrev pub memory_a : Memory
memory_a = record { stored = cluster_a; patched = []; deleted = [] }

abbrev pub memory_used : Memory
memory_used = record { stored = cluster_used; patched = []; deleted = [] }
