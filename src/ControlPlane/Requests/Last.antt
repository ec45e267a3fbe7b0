-- ===== src/ControlPlane/Requests/Last.antt =====
-- The primary ClusterRequest of a ControlPlane is deleted last.
use openmcp_operator.Prelude.{
  String, none, List, [], ◌∷◌, true, false, ◌==◌, ◌≡◌, ◌≢◌, ◌⊎◌, inl, inr, arith, subst, eq_iff,
  contains, keys, set_at, contains-keys-set_at, All, Bool-cases,
}
use openmcp_operator.Flow.{Failure, found, not_found, Answer-cases}
use openmcp_operator.Api.Meta.{ObjectReference}
use openmcp_operator.Api.Requests.{ClusterRequest}
use openmcp_operator.ControlPlane.State.{ControlPlaneClient}
use openmcp_operator.ControlPlane.Requests.{Requests, get_requests}
use openmcp_operator.ControlPlane.Keeps.{Allowed, Keeps, NonEmpty}

-- A read answers with the object that was asked for.
abbrev pub GetLaw : ControlPlaneClient → Type 0
GetLaw client =
    (r : ObjectReference) (w : client.World) (cr : ClusterRequest)
    → (client.get_request r w).0 ≡ found cr
    → cr.name ≡ r.name

module _ (client : ControlPlaneClient) {allowed : Allowed} {P : client.World → Type 0}
    (keeps : Keeps client allowed P) (named : GetLaw client) (ns primary other : String)
    (apart : other ≢ primary)
    (others : (cr : ClusterRequest)
      → cr.name ≢ primary
      → cr.deletion_timestamp ≡ none
      → allowed.deletes_request cr) where
  -- While `P` holds, the other ClusterRequest is there and stays.
  pub record Remains : Type 0 where
    pub there :
        (v : client.World)
        → P v
        → (client.get_request (record { name = other; namespace = ns }) v).0 ≢ not_found
    pub stays :
        (v u : client.World) (cr : ClusterRequest)
        → P v
        → (client.get_request (record { name = other; namespace = ns }) v).0 ≡ found cr
        → P u
        → (client.delete_request cr u).0 ≢ not_found

  -- An entry of the map has the name of its request, and the other request stays.
  abbrev pub Entry : String × ClusterRequest → Type 0
  Entry e =
      (e.1.name ≡ e.0)
      × (e.0 ≡ other → (u : client.World) → P u → (client.delete_request e.1 u).0 ≢ not_found)

  set_at-Entry :
      (name : String) (cr : ClusterRequest) (resources : Requests)
      → Entry (name, cr)
      → All Entry resources
      → All Entry (set_at name cr resources)
  unfolding set_at
  set_at-Entry name cr [] e h = (e, tt)
  set_at-Entry name cr ((j, c) ∷ resources) e h = elim (Bool-cases (j == name)) [
    | inl q ↦ rw (q, set_at) ((e, h.1))
    | inr q ↦ rw (q, set_at) ((h.0, set_at-Entry name cr resources e h.1))
  ]

  -- What the first loop does with the map.
  pub record Fetched (resources : Requests) (names : List String)
      (r : (Requests × List Failure) × client.World) : Type 0 where
    pub kept : P r.1
    pub entries : All Entry r.0.0
    pub has :
        (contains (keys resources) other ≡ true) ⊎ (contains names other ≡ true)
        → (contains (keys r.0.0) other ≡ true) ⊎ NonEmpty r.0.1

  moved :
      (name : String) (names : List String) (resources : Requests) (cr : ClusterRequest)
      → (contains (keys resources) other ≡ true) ⊎ (contains (name ∷ names) other ≡ true)
      → (contains (keys (set_at name cr resources)) other ≡ true) ⊎ (contains names other ≡ true)
  unfolding contains
  moved name names resources cr k = elim (Bool-cases (name == other)) [
    | inl e ↦ inl (ground (arith, contains-keys-set_at name other cr resources, e))
    | inr e ↦ elim k [
      | inl a ↦ inl (ground (arith, contains-keys-set_at name other cr resources, e, a))
      | inr b ↦ inr (ground (arith, b, e))
    ]
  ]

  differs :
      Remains
      → (name : String) (w : client.World) → P w
      → (client.get_request (record { name = name; namespace = ns }) w).0 ≡ not_found
      → (name == other) ≡ false
  differs rem name w p e = elim (Bool-cases (name == other)) [
    | inl q ↦
        let same : name ≡ other = ground (arith, q, eq_iff name other) in
        absurd (
          rem.there w p (
            subst (λ n. (client.get_request (record { name = n; namespace = ns }) w).0 ≡ not_found)
              same e))
    | inr q ↦ q
  ]

  pub get_requests-Fetched :
      Remains
      → (resources : Requests) (names : List String) (w : client.World) → P w
      → All Entry resources
      → Fetched resources names (get_requests client ns resources names w)
  unfolding get_requests contains
  get_requests-Fetched rem resources [] w p h = record {
    kept = p;
    entries = h;
    has = λ k. elim k [ inl a ↦ inl a | inr b ↦ absurd (ground arith) ];
  }
  get_requests-Fetched rem resources (name ∷ names) w p h =
      let ref : ObjectReference = record { name = name; namespace = ns } in
      let got = client.get_request ref w in
      let q = keeps.get_request ref w p in
      elim (Answer-cases got.0) [
        | inl (cr, e) ↦
            let entry : Entry (name, cr) = (
              named ref w cr e,
              λ same u. rem.stays w u cr p (
                  subst
                    (λ n. (client.get_request (record { name = n; namespace = ns }) w).0 ≡ found cr)
                    same e),
            ) in
            let ih =
              get_requests-Fetched rem (set_at name cr resources) names got.1 q
                (set_at-Entry name cr resources entry h) in
            rw (e, get_requests)
              (record {
                kept = ih.kept;
                entries = ih.entries;
                has = λ k. ih.has (moved name names resources cr k);
              })
        | inr (inl e) ↦
            let differ : (name == other) ≡ false = differs rem name w p e in
            let ih = get_requests-Fetched rem resources names got.1 q h in
            rw (e, get_requests)
              (record {
                kept = ih.kept;
                entries = ih.entries;
                has = λ k.
                    ih.has (elim k [ inl a ↦ inl a | inr b ↦ inr (ground (arith, b, differ)) ]);
              })
        | inr (inr (m, e)) ↦
            let ih = get_requests-Fetched rem resources names got.1 q h in
            rw (e, get_requests)
              (record { kept = ih.kept; entries = ih.entries; has = λ k. inr tt })
      ]
