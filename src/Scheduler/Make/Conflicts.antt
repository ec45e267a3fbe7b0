-- ===== src/Scheduler/Make/Conflicts.antt =====
-- Which clusters with the wanted name count as a conflict, and what a take-over keeps.
use openmcp_operator.Prelude.{
  String, List, [], ◌∷◌, Bool, true, false, not, ◌&&◌, ◌||◌, ◌≡◌, inl, inr, ◌==◌, arith, contains,
  contains-insert_all, insert, insert_all, any_of, select, starts_with, eq_iff,
}
use openmcp_operator.Flow.{next, found, Answer-cases}
use openmcp_operator.Api.Meta.{request_finalizer_on_cluster_prefix as prefix}
use openmcp_operator.Api.Cluster.{Cluster}
use openmcp_operator.Api.Requests.{ClusterRequest, finalizer_for_cluster}
use openmcp_operator.Config.Labels.{Labels}
use openmcp_operator.Platform.{Library, LibraryLaws, Client}
use openmcp_operator.Scheduler.Make.{find_conflict, merge_cluster}

contains-select-not :
    (removals xs : List String) (g : String)
    → contains (select (λ f. not (contains removals f)) xs) g
      ≡ (not (contains removals g) && contains xs g)
unfolding select contains
contains-select-not removals [] g = ground arith
contains-select-not removals (x ∷ xs) g =
    ground (arith, contains-select-not removals xs g, eq_iff x g)

module _ {labels : Labels} (lib : Library) (client : Client labels) (old cr : ClusterRequest) where
  -- Once the requests are listed, the loop only looks for the request's own finalizer.
  listed_conflict :
      (fins removals : List String) (conflict : Bool) (w : client.World)
      → find_conflict lib client old cr fins conflict true removals w
        ≡ (next (not (contains fins (finalizer_for_cluster cr)) && conflict, removals), w)
  unfolding find_conflict contains
  listed_conflict [] removals conflict w = ground arith
  listed_conflict (f ∷ fins) removals conflict w =
      ground (arith, listed_conflict fins removals conflict w)

  -- Of the finalizers of other requests only the first one is compared with the requests there are,
  -- and it is put down for removal whether its request exists or not; the request's own finalizer
  -- behind it clears the conflict.
  pub find_conflict_first_only :
      (f : String) (fins : List String) (crs : List ClusterRequest) (w : client.World)
      → starts_with f prefix ≡ true
      → (f == finalizer_for_cluster cr) ≡ false
      → (client.list_requests w).0 ≡ found crs
      → find_conflict lib client old cr (f ∷ fins) false false [] w ≡ (
        next (
          not (contains fins (finalizer_for_cluster cr))
              && any_of (λ ecr. f == finalizer_for_cluster ecr) crs,
          f ∷ [],
        ),
        (client.list_requests w).1,
      )
  unfolding find_conflict insert contains
  find_conflict_first_only f fins crs w sp ne e = ground (
    arith,
    listed_conflict fins (f ∷ []) (any_of (λ ecr. f == finalizer_for_cluster ecr) crs)
        (client.list_requests w).1,
  )

module _ (lib : Library) (laws : LibraryLaws lib) {labels : Labels} (client : Client labels)
    (old : ClusterRequest) where
  -- A take-over keeps the finalizers of the existing cluster but the removed ones, and adds those
  -- of the new one.
  pub contains-merge_cluster :
      (existing c : Cluster) (removals : List String) (g : String)
      → contains (merge_cluster lib client old existing c removals).finalizers g
        ≡ (contains c.finalizers g || (not (contains removals g) && contains existing.finalizers g))
  unfolding merge_cluster contains
  contains-merge_cluster existing c removals g =
      let all = insert_all existing.finalizers [] in
      let kept = select (λ f. not (contains removals f)) all in
      ground (
        arith,
        laws.set_list_contains (insert_all c.finalizers kept) g,
        contains-insert_all c.finalizers kept g,
        contains-select-not removals all g,
        contains-insert_all existing.finalizers [] g,
      )

module _ {labels : Labels} (lib : Library) (client : Client labels) (old cr : ClusterRequest) where
  -- A cluster that carries the request's own finalizer is never a conflict.
  pub own_no_conflict :
      (fins removals : List String) (conflict : Bool) (w : client.World)
      → (r : Bool × List String) → contains fins (finalizer_for_cluster cr) ≡ true
      → (find_conflict lib client old cr fins conflict false removals w).0 ≡ next r
      → r.0 ≡ false
  unfolding find_conflict contains
  own_no_conflict [] removals conflict w r h e = ground arith
  own_no_conflict (f ∷ fins) removals conflict w r h e =
      let rest = own_no_conflict fins removals conflict w r in
      elim (Answer-cases (client.list_requests w).0) [
        | inl (crs, q) ↦ ground (
          arith,
          rest,
          listed_conflict lib client old cr fins (insert f removals)
              (any_of (λ ecr. f == finalizer_for_cluster ecr) crs) (client.list_requests w).1,
        )
        | inr (inl q) ↦ ground (arith, rest)
        | inr (inr (m, q)) ↦ ground (arith, rest)
      ]
