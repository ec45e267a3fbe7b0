-- ===== src/Scheduler/Naming/Laws.antt =====
-- What a new Cluster looks like, and the names that are generated for it.
use Prim.Native.String.{len}
use text.Mathlib.TextPositions.{len-append, starts_with-append}
use openmcp_operator.Prelude.{
  ◌≤◌, sub_ℕ, String, Option, none, some, List, [], ◌∷◌, true, ◌≡◌, ap, ◌∙◌, Option-cases, inl, inr,
  ◌||◌, ◌==◌, arith, contains, contains-append, starts_with, if◌then◌else◌, ◌<>◌, eq_iff,
}
use openmcp_operator.Api.Meta.{
  Dict, GoMap, get, lookup, items, ObjectReference, metadata_prefix, tenancy_exclusive,
  delete_without_requests_label,
}
use openmcp_operator.Api.Tenancy.{tenancy_count_single}
use openmcp_operator.Api.Keys.{DistinctKeys}
use openmcp_operator.Api.Cluster.{Cluster, get_tenancy_count}
use openmcp_operator.Api.Requests.{ClusterRequest, finalizer_for_cluster}
use openmcp_operator.Config.Labels.{Labels}
use openmcp_operator.Config.Scheduler.{ClusterDefinition}
use openmcp_operator.Platform.{Library, LibraryLaws}
use openmcp_operator.Scheduler.Naming.{
  propagate, generate_cluster_name, with_purpose, initialize_new_cluster,
}

module _ (lib : Library) (laws : LibraryLaws lib) where
  -- A generated name starts with its prefix and fits the limit of Kubernetes.
  pub generate_cluster_name_bounds :
      (pre n : String) (cr : ClusterRequest)
      → generate_cluster_name lib pre cr ≡ some n
      → (starts_with n pre ≡ true) × (len n ≤ lib.k8s_max_name_length)
  unfolding generate_cluster_name
  generate_cluster_name_bounds pre n cr h =
      elim (Option-cases (
        lib.shorten (lib.name_hash cr.namespace cr.name)
          (sub_ℕ lib.k8s_max_name_length (len pre)))) [
            | inl e ↦ absurd (ground arith)
            | inr (suffix, e) ↦
                let (k, is_k, fits) = laws.shorten_len _ suffix _ e in
                let made : pre <> suffix ≡ n = ground (arith, h, e) in
                rw (← made)
                  (starts_with-append pre suffix, ground (arith, len-append pre suffix, is_k, fits))
          ]

  -- Copying the entries with the metadata prefix, for a source with distinct keys: such an entry of the source is there afterwards,
  -- and every other key keeps its value.
  pub get-propagate :
      (source : Dict) (target : GoMap) (j : String)
      → DistinctKeys source
      → get j (propagate lib source target) ≡ (
          if starts_with j metadata_prefix
          then elim (lookup j source) [ none ↦ get j target | some v ↦ some v ]
          else get j target)
  unfolding propagate lookup
  get-propagate [] target j d = ground arith
  get-propagate ((k, v) ∷ rest) target j d = ground (
    arith,
    get-propagate rest target j d.1,
    get-propagate rest (lib.set_metadata_entry target k v) j d.1,
    laws.set_metadata_entry_get target k v j,
    eq_iff k j,
  )

module _ {labels : Labels} (lib : Library) (d : ClusterDefinition labels)
    (cr : ClusterRequest) where
  contains-with_purpose :
      (ps : List String) (p : String)
      → contains (with_purpose lib d cr ps) p ≡ (contains ps p || p == cr.purpose)
  unfolding with_purpose contains
  contains-with_purpose ps p =
      ground
        (arith, contains-append ps (cr.purpose ∷ []) p, eq_iff cr.purpose p, eq_iff p cr.purpose)

  made_finalizers :
      (existing : Option ObjectReference) (c : Cluster)
      → initialize_new_cluster lib d cr existing ≡ some c
      → c.finalizers ≡ finalizer_for_cluster cr ∷ []
  unfolding initialize_new_cluster
  made_finalizers existing c h = ground arith

  made_tenancy :
      (existing : Option ObjectReference) (c : Cluster)
      → initialize_new_cluster lib d cr existing ≡ some c
      → c.spec.tenancy ≡ d.template.spec.tenancy
  unfolding initialize_new_cluster
  made_tenancy existing c h = ground arith

  made_purposes :
      (existing : Option ObjectReference) (c : Cluster)
      → initialize_new_cluster lib d cr existing ≡ some c
      → c.spec.purposes ≡ with_purpose lib d cr d.template.spec.purposes
  unfolding initialize_new_cluster
  made_purposes existing c h = ground arith

  -- A cluster made for a request carries its finalizer alone, counts one request, serves the
  -- purpose of the request besides those of the template, and has the template's tenancy.
  pub initialize_new_cluster_claimed :
      (existing : Option ObjectReference) (c : Cluster)
      → initialize_new_cluster lib d cr existing ≡ some c
      → (c.finalizers ≡ finalizer_for_cluster cr ∷ [])
        × (get_tenancy_count c ≡ 1)
        × (c.spec.tenancy ≡ d.template.spec.tenancy)
        × ((p : String)
            → contains c.spec.purposes p ≡ (contains d.template.spec.purposes p || p == cr.purpose))
  initialize_new_cluster_claimed existing c h =
      let fins = made_finalizers existing c h in
      (
        fins,
        tenancy_count_single c cr.uid (unfold finalizer_for_cluster in fins),
        made_tenancy existing c h,
        λ p.
            ap (λ ps. contains ps p) (made_purposes existing c h)
            ∙ contains-with_purpose d.template.spec.purposes p,
      )

  -- The labels of the request with the metadata prefix, its keys being distinct, are on the cluster
  -- that is made for it from an exclusive template.
  pub initialize_new_cluster_propagates :
      LibraryLaws lib
      → (existing : Option ObjectReference) (c : Cluster) (j v : String)
      → initialize_new_cluster lib d cr existing ≡ some c
      → (d.template.spec.tenancy == tenancy_exclusive) ≡ true
      → DistinctKeys (items cr.labels)
      → starts_with j metadata_prefix ≡ true
      → get j cr.labels ≡ some v
      → get j c.labels ≡ some v
  unfolding initialize_new_cluster
  initialize_new_cluster_propagates laws existing c j v h ex dk sp hv = ground (
    arith,
    get-propagate lib laws (items cr.labels)
        (lib.ensure_label d.template.labels delete_without_requests_label "true").0 j dk,
  )
