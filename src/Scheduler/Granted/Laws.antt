-- ===== src/Scheduler/Granted/Laws.antt =====
-- A granted request: the metadata that is brought up to date, and the steady state.
use openmcp_operator.Prelude.{
  String, Option, none, some, ◌||◌, any_of, [], ◌∷◌, Bool, true, false, not, ◌&&◌, ◌≡◌, refl, ◌∙◌,
  Bool-cases, inl, inr, ◌==◌, arith, contains, starts_with, if◌then◌else◌, eq_iff,
}
use openmcp_operator.Flow.{next, stop, found}
use openmcp_operator.Api.Meta.{
  Dict, GoMap, ObjectReference, get, or_empty, put, lookup-put, lookup, metadata_prefix,
  cluster_request_finalizer, tenancy_exclusive,
}
use openmcp_operator.Api.Keys.{DistinctKeys}
use openmcp_operator.Api.Cluster.{Cluster}
use openmcp_operator.Api.Requests.{ClusterRequest, finalizer_for_cluster}
use openmcp_operator.Config.Labels.{Labels}
use openmcp_operator.Platform.{Library, LibraryLaws, Client}
use openmcp_operator.Scheduler.State.{result}
use openmcp_operator.Scheduler.Reconcile.{handle_create_or_update}
use openmcp_operator.Scheduler.Granted.{
  sync_metadata, mark_cluster, propagate_metadata, check_granted, ensure_finalizer,
}

-- What a key has after the synchronisation: the entry of the source with the metadata prefix, unless
-- it is what a read of the key yields already, which is the empty text for a missing key.
abbrev pub synced : Dict → GoMap → String → Option String
synced source target j =
    if starts_with j metadata_prefix
    then elim (lookup j source) [
      | none ↦ get j target
      | some v ↦ if or_empty (get j target) == v then get j target else some v
    ]
    else get j target

-- Some entry of the source with the metadata prefix has another value than a read of its key.
abbrev pub differs : Dict → GoMap → Bool
differs source target =
    any_of (λ e. starts_with e.0 metadata_prefix && not (or_empty (get e.0 target) == e.1)) source

synced_write :
    (k v j : String) (rest m : Dict)
    → lookup k rest ≡ none
    → starts_with k metadata_prefix && not (or_empty (lookup k m) == v) ≡ true
    → synced rest (some (put k v m)) j ≡ synced ((k, v) ∷ rest) (some m) j
unfolding lookup
synced_write k v j rest m absent sp = ground (arith, lookup-put k j v m, eq_iff k j)

synced_skip :
    (k v j : String) (rest m : Dict)
    → lookup k rest ≡ none
    → (starts_with k metadata_prefix && not (or_empty (lookup k m) == v)) ≡ false
    → synced rest (some m) j ≡ synced ((k, v) ∷ rest) (some m) j
unfolding lookup
synced_skip k v j rest m absent sp = ground (arith, eq_iff k j)

-- On a map that is not nil, for a source whose keys are distinct, the synchronisation succeeds. The
-- flag is set if it was set before or if some entry of the source with the metadata prefix differs
-- from what the map reads for its key, without which the map stays; afterwards every key has the
-- differing entry of the source, or what it had.
pub sync_metadata_get :
    (source m : Dict) (update : Bool) (j : String)
    → DistinctKeys source
    → (m' : Dict) × (sync_metadata source (some m) update
        ≡ some (some m', update || differs source (some m)))
      × (differs source (some m) ≡ false → m' ≡ m)
      × (lookup j m' ≡ synced source (some m) j)
unfolding sync_metadata lookup any_of
sync_metadata_get [] m update j d = (m, ground arith, λ h. refl, ground arith)
sync_metadata_get ((k, v) ∷ rest) m update j d =
    elim (Bool-cases (starts_with k metadata_prefix && not (or_empty (lookup k m) == v))) [
      | inl write ↦
          let (m', e, same, h) = sync_metadata_get rest (put k v m) true j d.1 in
          (
            m',
            ground (arith, write, e),
            λ f. absurd (ground (arith, write, f)),
            h ∙ synced_write k v j rest m d.0 write,
          )
      | inr skip ↦
          let (m', e, same, h) = sync_metadata_get rest m update j d.1 in
          (
            m',
            ground (arith, skip, e),
            λ f. same (ground (arith, skip, f)),
            h ∙ synced_skip k v j rest m d.0 skip,
          )
    ]

module _ {labels : Labels} (lib : Library) (client : Client labels) (laws : LibraryLaws lib) where
  ensure_finalizer_there :
      (cr : ClusterRequest) (w : client.World)
      → contains cr.finalizers cluster_request_finalizer ≡ true
      → ensure_finalizer lib client cr cr w ≡ (next cr, w)
  unfolding ensure_finalizer
  ensure_finalizer_there cr w h =
      rw (laws.add_finalizer_present cr.finalizers cluster_request_finalizer h)

  check_granted_steady :
      (cr : ClusterRequest) (ref : ObjectReference) (c : Cluster) (w : client.World)
      → cr.status.cluster ≡ some ref
      → (client.get_cluster ref w).0 ≡ found c
      → contains c.finalizers (finalizer_for_cluster cr) ≡ true
      → (c.spec.tenancy == tenancy_exclusive) ≡ false
      → check_granted lib client cr cr w ≡ (stop (result cr cr none), (client.get_cluster ref w).1)
  unfolding check_granted mark_cluster propagate_metadata
  check_granted_steady cr ref c w hr hg hc ht =
      ground (arith, laws.contains_finalizer_lem c.finalizers (finalizer_for_cluster cr))

  -- A granted request whose cluster exists, is not exclusive and carries the finalizer is left as
  -- it is: the handler returns without an error behind reading the cluster, and writes nothing.
  pub steady_state :
      (cr : ClusterRequest) (ref : ObjectReference) (c : Cluster) (w : client.World)
      → contains cr.finalizers cluster_request_finalizer ≡ true
      → cr.status.cluster ≡ some ref
      → (client.get_cluster ref w).0 ≡ found c
      → contains c.finalizers (finalizer_for_cluster cr) ≡ true
      → (c.spec.tenancy == tenancy_exclusive) ≡ false
      → handle_create_or_update lib client cr w
        ≡ (stop (result cr cr none), (client.get_cluster ref w).1)
  unfolding handle_create_or_update
  steady_state cr ref c w hf hr hg hc ht =
      ground (arith, ensure_finalizer_there cr w hf, check_granted_steady cr ref c w hr hg hc ht)
