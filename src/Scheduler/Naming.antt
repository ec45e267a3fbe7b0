-- ===== src/Scheduler/Naming.antt =====
-- `initializeNewCluster` and `GenerateClusterName`: the Cluster that a request makes.
pub mod Laws
use Prim.Native.String.{len}
use openmcp_operator.Prelude.{
  sub_ℕ, is_zero, String, Option, none, some, List, [], ◌∷◌, ◌++◌, Bool, not, ◌&&◌, ◌==◌, ◌<>◌,
  contains, starts_with, if◌then◌else◌,
}
use openmcp_operator.Api.Meta.{
  Dict, GoMap, ObjectMeta, empty_meta, ObjectReference, items, tenancy_shared, tenancy_exclusive,
  randomize_cluster_name_label, delete_without_requests_label, metadata_prefix,
}
use openmcp_operator.Api.Cluster.{Cluster, empty_cluster}
use openmcp_operator.Api.Requests.{ClusterRequest, finalizer_for_cluster}
use openmcp_operator.Config.Labels.{Labels}
use openmcp_operator.Config.Scheduler.{ClusterDefinition}
use openmcp_operator.Platform.{Library}

-- The name that is chosen: a fixed one, or one for the API server to complete.
pub data NameChoice : Type 0 where
  name generate_name : String → NameChoice

-- The loop that copies the entries with the metadata prefix.
unfoldable pub propagate : Library → Dict → GoMap → GoMap
propagate lib [] target = target
propagate lib ((k, v) ∷ rest) target =
    propagate lib rest
      (if starts_with k metadata_prefix then lib.set_metadata_entry target k v else target)

module _ (lib : Library) where
  -- `none` is the error of `ShortenToXCharacters`.
  unfoldable pub generate_cluster_name : String → ClusterRequest → Option String
  generate_cluster_name prefix cr =
      elim (lib.shorten (lib.name_hash cr.namespace cr.name)
        (sub_ℕ lib.k8s_max_name_length (len prefix))) [
          | none ↦ none
          | some suffix ↦ some (prefix <> suffix)
        ]

  -- A random name if the request asks for one, else the generated name.
  choose_generated : String → ClusterRequest → Option NameChoice
  unfolding generate_cluster_name
  choose_generated prefix cr =
      if lib.has_label_with_value cr.labels randomize_cluster_name_label "true"
      then some (generate_name prefix)
      else elim (generate_cluster_name prefix cr) [ none ↦ none | some n ↦ some (name n) ]

  module _ {labels : Labels} (c_def : ClusterDefinition labels) (cr : ClusterRequest) where
    -- There will be one instance of a cluster that is shared without limit.
    is_singleton : Bool
    is_singleton = c_def.template.spec.tenancy == tenancy_shared && is_zero c_def.tenancy_count

    choose_singleton : Option NameChoice
    unfolding choose_generated
    choose_singleton =
        if not (c_def.template.generate_name == "")
        then choose_generated c_def.template.generate_name cr
        else if not (c_def.template.name == "")
        then some (name c_def.template.name)
        else some (name cr.purpose)

    choose_instance : Option NameChoice
    unfolding choose_generated
    choose_instance =
        choose_generated
          (if not (c_def.template.generate_name == "")
            then c_def.template.generate_name
            else cr.purpose <> "-")
          cr

    unfoldable pub choose_name : Option NameChoice
    unfolding is_singleton choose_singleton choose_instance
    choose_name = if is_singleton then choose_singleton else choose_instance

    abbrev pub set_name : ObjectMeta → NameChoice → ObjectMeta
    set_name m (name n) = record m { name = n }
    set_name m (generate_name n) = record m { generate_name = n }

    -- The name: of the cluster that is lost, if there is one with a name, else a chosen one.
    name_cluster : Option ObjectReference → Option ObjectMeta
    unfolding choose_name
    name_cluster existing =
        let m : ObjectMeta = elim existing [
          | none ↦ empty_meta
          | some r ↦ record empty_meta { name = r.name; namespace = r.namespace }
        ] in
        if m.name == ""
        then elim choose_name [ none ↦ none | some n ↦ some (set_name m n) ]
        else some m

    choose_namespace : ObjectMeta → ObjectMeta
    choose_namespace m =
        if m.namespace == ""
        then record m {
          namespace =
              if not (c_def.template.namespace == "")
              then c_def.template.namespace
              else cr.namespace;
        }
        else m

    -- Finalizer, labels and annotations: those of the template, the deletion label, and for an
    -- exclusive cluster the metadata entries of the request.
    fill_metadata : ObjectMeta → ObjectMeta
    unfolding propagate finalizer_for_cluster
    fill_metadata m =
        let ls = (lib.ensure_label c_def.template.labels delete_without_requests_label "true").0 in
        let exclusive = c_def.template.spec.tenancy == tenancy_exclusive in
        record m {
          finalizers = finalizer_for_cluster cr ∷ [];
          labels = if exclusive then propagate lib (items cr.labels) ls else ls;
          annotations =
              if exclusive
              then propagate lib (items cr.annotations) c_def.template.annotations
              else c_def.template.annotations;
        }

    -- An empty list becomes the purpose alone, and the purpose is appended where it is missing.
    unfoldable pub with_purpose : List String → List String
    with_purpose ps = if contains ps cr.purpose then ps else ps ++ (cr.purpose ∷ [])

    unfoldable pub initialize_new_cluster : Option ObjectReference → Option Cluster
    unfolding name_cluster choose_namespace fill_metadata with_purpose
    initialize_new_cluster existing = elim (name_cluster existing) [
      | none ↦ none
      | some m ↦ some (record empty_cluster {
        metadata = fill_metadata (choose_namespace m);
        spec = record c_def.template.spec { purposes = with_purpose c_def.template.spec.purposes };
      })
    ]
