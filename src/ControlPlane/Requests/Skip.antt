-- ===== src/ControlPlane/Requests/Skip.antt =====
-- The loop that deletes ClusterRequests skips the primary one as long as there is another.
use openmcp_operator.Prelude.{
  String, Option, none, List, [], ◌∷◌, true, ◌==◌, ◌≡◌, ◌≢◌, refl, ◌⊎◌, inl, inr, arith, sym,
  eq_iff, contains, keys, contains-keys-delete_at, two_keys, All, is_some, length, ltb, ◌∙◌,
  Bool-cases,
}
use openmcp_operator.Flow.{Failure, Answer-cases}
use openmcp_operator.Api.Cluster.{Cluster}
use openmcp_operator.Api.Requests.{ClusterRequest}
use openmcp_operator.ControlPlane.State.{ControlPlaneClient}
use openmcp_operator.ControlPlane.Requests.{
  Requests, visit_primary, delete_request, delete_requests,
}
use openmcp_operator.ControlPlane.Requests.Kept.{visit_primary-keeps}
use openmcp_operator.ControlPlane.Requests.Last.{GetLaw, Entry}
use openmcp_operator.ControlPlane.Keeps.{Allowed, Keeps}

module _ (client : ControlPlaneClient) {allowed : Allowed} {P : client.World → Type 0}
    (keeps : Keeps client allowed P) (named : GetLaw client) (ns primary other : String)
    (apart : other ≢ primary)
    (others : (cr : ClusterRequest)
      → cr.name ≢ primary
      → cr.deletion_timestamp ≡ none
      → allowed.deletes_request cr) where
  abbrev Item : String × ClusterRequest → Type 0
  Item = Entry client keeps named ns primary other apart others

  -- What the deletion of a request that is not the primary one leaves.
  record Round (resources : Requests) (r : (Requests × List Failure) × client.World) : Type 0 where
    kept : P r.1
    still :
        (j : String)
        → (j ≡ other) ⊎ (j ≡ primary)
        → contains (keys resources) j ≡ true
        → contains (keys r.0.0) j ≡ true

  delete_request-Round :
      (name : String) (cr : ClusterRequest) (resources : Requests) (w : client.World)
      → P w
      → Item (name, cr)
      → name ≢ primary
      → Round resources (delete_request client name cr resources w)
  unfolding delete_request
  delete_request-Round name cr resources w p item n =
      elim (Bool-cases (is_some cr.deletion_timestamp)) [
        | inl e ↦ rw (e, delete_request) (record { kept = p; still = λ j q h. h })
        | inr e ↦
            let allowed_here = others cr (λ q. n (sym item.0 ∙ q)) (ground (arith, e)) in
            let q = keeps.delete_request cr w allowed_here p in
            elim (Answer-cases (client.delete_request cr w).0) [
              | inl (u, a) ↦ rw (e, a, delete_request) (record { kept = q; still = λ j o h. h })
              | inr (inl a) ↦
                  rw (e, a, delete_request)
                    (record {
                      kept = q;
                      still = λ j o h.
                          let differ : name ≢ j = (λ same. elim o [
                            | inl k ↦ item.1 (same ∙ k) w p a
                            | inr k ↦ n (same ∙ k)
                          ]) in
                          ground (
                            arith,
                            contains-keys-delete_at name j resources,
                            h,
                            differ,
                            eq_iff name j,
                          );
                    })
              | inr (inr (m, a)) ↦
                  rw (e, a, delete_request) (record { kept = q; still = λ j o h. h })
            ]
      ]

  -- Both names are in the map, so it has more than one.
  more_than_one :
      (resources : Requests)
      → contains (keys resources) other ≡ true
      → contains (keys resources) primary ≡ true
      → ltb 1 (length resources) ≡ true
  more_than_one resources h k = ground (arith, two_keys other primary resources apart h k)

  -- The primary name, where it is still to be visited, is in the map.
  abbrev Waits : Requests → String × ClusterRequest → Type 0
  Waits resources e = e.0 ≡ primary → contains (keys resources) primary ≡ true

  Waits-All :
      (resources more : Requests) (crs : Requests)
      → (contains (keys resources) primary ≡ true → contains (keys more) primary ≡ true)
      → All (Waits resources) crs
      → All (Waits more) crs
  Waits-All resources more [] f h = tt
  Waits-All resources more (e ∷ crs) f h = (λ q. f (h.0 q), Waits-All resources more crs f h.1)

  pub delete_requests-skip :
      (crs resources : Requests) (cluster : Option Cluster) (w : client.World)
      → P w
      → All Item crs
      → contains (keys resources) other ≡ true
      → All (Waits resources) crs
      → P (delete_requests client primary crs resources cluster w).1
        × (contains (keys (delete_requests client primary crs resources cluster w).0.0.0) other
            ≡ true)
  unfolding delete_requests
  delete_requests-skip [] resources cluster w p items h waits = (p, h)
  delete_requests-skip ((name, cr) ∷ crs) resources cluster w p items h waits =
      elim (Bool-cases (name == primary)) [
        | inl e ↦
            let same : name ≡ primary = ground (arith, e, eq_iff name primary) in
            let more = more_than_one resources h (waits.0 same) in
            let fetched = visit_primary client primary name cr cluster w in
            rw (e, more, delete_requests)
              (delete_requests-skip crs resources fetched.0 fetched.1
                (visit_primary-keeps client keeps primary name cr cluster w p) items.1 h waits.1)
        | inr e ↦
            let differ : name ≢ primary =
              (λ q. absurd (ground (arith, e, q, eq_iff name primary))) in
            let fetched = visit_primary client primary name cr cluster w in
            let q = visit_primary-keeps client keeps primary name cr cluster w p in
            let done = delete_request-Round name cr resources fetched.1 q items.0 differ in
            let round = delete_request client name cr resources fetched.1 in
            rw (e, delete_requests)
              (delete_requests-skip crs round.0.0 fetched.0 round.1 done.kept items.1
                (done.still other (inl refl) h)
                (Waits-All resources round.0.0 crs (done.still primary (inr refl)) waits.1))
      ]
