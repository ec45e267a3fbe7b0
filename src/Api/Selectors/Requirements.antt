-- ===== src/Api/Selectors/Requirements.antt =====
-- When the purposes of an object meet a requirement of a purpose selector.
use openmcp_operator.Prelude.{
  ◌≤◌, String, List, [], ◌∷◌, Bool, true, false, ◌&&◌, ◌==◌, ◌≡◌, ◌↔◌, ◌⊎◌, inl, inr, refl, arith,
  sym, ap, ◌∙◌, fun_ext, eqb, length, All, contains, insert_all, contains-insert_all, any_of,
  select, eq_iff, eq_refl, Bool-cases, Distinct, insert-Distinct, length-le_of_subset,
}
use openmcp_operator.Api.Selectors.{
  PurposeSelectorRequirement, contains_all, contains_any, contains_none, equals, has_all,
  meets_requirement, meets_all,
}

-- What the operator of a requirement says of its values, for the purposes of an object. ContainsAll
-- without values asks for nothing, so every object satisfies it.
abbrev pub SatisfiesBy : (String → Bool) → PurposeSelectorRequirement → Type 0
SatisfiesBy has r =
    ((r.operator ≡ contains_all) × ((v : String) → contains r.values v ≡ true → has v ≡ true))
    ⊎ (((r.operator ≡ contains_any)
          × ((v : String) × (contains r.values v ≡ true) × (has v ≡ true)))
        ⊎ (((r.operator ≡ contains_none)
              × ((v : String) → contains r.values v ≡ true → has v ≡ false))
            ⊎ ((r.operator ≡ equals) × ((v : String) → has v ≡ contains r.values v))))

abbrev pub Satisfies : List String → PurposeSelectorRequirement → Type 0
Satisfies ps = SatisfiesBy (contains ps)

-- The values of a requirement that asks for equality stand once each.
abbrev pub DistinctEquals : PurposeSelectorRequirement → Type 0
DistinctEquals r = r.operator ≡ equals → Distinct r.values

has_all_iff :
    (ps vs : List String)
    → (has_all ps vs ≡ true) ↔ ((v : String) → contains vs v ≡ true → contains ps v ≡ true)
unfolding has_all contains
has_all_iff ps [] = (λ h v m. absurd (ground arith), λ h. refl)
has_all_iff ps (x ∷ vs) = (
  λ h v m. elim (Bool-cases (x == v)) [
    | inl e ↦ rw (← (eq_iff x v).0 e) (ground (arith, h))
    | inr e ↦ (has_all_iff ps vs).0 (ground (arith, h)) v (ground (arith, m, e))
  ],
  λ h. ground (
    arith,
    h x (ground (arith, eq_refl x)),
    (has_all_iff ps vs).1 (λ v m. h v (ground (arith, m))),
  ),
)

any_of_iff :
    (ps vs : List String)
    → (any_of (contains ps) vs ≡ true)
      ↔ ((v : String) × (contains vs v ≡ true) × (contains ps v ≡ true))
unfolding any_of contains
any_of_iff ps [] = (λ h. absurd (ground arith), λ h. absurd (ground (arith, h.1)))
any_of_iff ps (x ∷ vs) = (
  λ h. elim (Bool-cases (contains ps x)) [
    | inl e ↦ (x, ground (arith, eq_refl x), e)
    | inr e ↦
        let (v, m, p) = (any_of_iff ps vs).0 (ground (arith, h, e)) in (v, ground (arith, m), p)
  ],
  λ (v, m, p). elim (Bool-cases (x == v)) [
    | inl e ↦ rw ((eq_iff x v).0 e) (ground (arith, p))
    | inr e ↦ ground (arith, (any_of_iff ps vs).1 (v, ground (arith, m, e), p))
  ],
)

none_iff :
    (ps vs : List String)
    → (eqb (length (select (contains vs) ps)) 0 ≡ true)
      ↔ ((v : String) → contains vs v ≡ true → contains ps v ≡ false)
unfolding select contains
none_iff [] vs = (λ h v m. refl, λ h. refl)
none_iff (x ∷ ps) vs = (
  λ h v m. elim (Bool-cases (x == v)) [
    | inl e ↦ absurd (ground (arith, h, ap (contains vs) ((eq_iff x v).0 e), m))
    | inr e ↦ ground (arith, e, (none_iff ps vs).0 (ground (arith, h)) v m)
  ],
  λ h. elim (Bool-cases (contains vs x)) [
    | inl e ↦ absurd (ground (arith, h x e, eq_refl x))
    | inr e ↦ ground (arith, e, (none_iff ps vs).1 (λ v m. ground (arith, h v m)))
  ],
)

-- A distinct list of the same length that is included in another distinct list has its elements.
same_length :
    (vs ps : List String)
    → Distinct vs
    → length ps ≡ length vs
    → ((v : String) → contains vs v ≡ true → contains ps v ≡ true)
    → (v : String) → contains ps v ≡ contains vs v
unfolding contains
same_length vs ps d e sub v = elim (Bool-cases (contains vs v)) [
  | inl m ↦ sub v m ∙ sym m
  | inr n ↦ elim (Bool-cases (contains ps v)) [
    | inl p ↦ absurd (
        omega (
          arith,
          e,
          length-le_of_subset (v ∷ vs) ps (n, d)
              (λ u m. elim (Bool-cases (v == u)) [
                | inl q ↦ rw (← (eq_iff v u).0 q) p
                | inr q ↦ sub u (ground (arith, m, q))
              ]),
        ))
    | inr p ↦ p ∙ sym n
  ]
]

equals_iff :
    (ps vs : List String)
    → Distinct ps
    → Distinct vs
    → (eqb (length ps) (length vs) && has_all ps vs ≡ true)
      ↔ ((v : String) → contains ps v ≡ contains vs v)
equals_iff ps vs dp dv = (
  λ h. same_length vs ps dv (ground (arith, h)) ((has_all_iff ps vs).0 (ground (arith, h))),
  λ h. ground (
    arith,
    (has_all_iff ps vs).1 (λ v m. h v ∙ m),
    length-le_of_subset ps vs dp (λ v m. sym (h v) ∙ m),
    length-le_of_subset vs ps dv (λ v m. h v ∙ m),
  ),
)

pub insert_all-Distinct : (xs : List String) → Distinct (insert_all xs [])
unfolding insert_all
insert_all-Distinct [] = tt
insert_all-Distinct (x ∷ xs) = insert-Distinct x (insert_all xs []) (insert_all-Distinct xs)

contains-set : (xs : List String) (v : String) → contains (insert_all xs []) v ≡ contains xs v
unfolding contains
contains-set xs v = ground (arith, contains-insert_all xs [] v)

pub set_of : (xs : List String) → contains (insert_all xs []) ≡ contains xs
set_of xs = fun_ext (contains-set xs)

module _ (ps : List String) (r : PurposeSelectorRequirement) where
  all_case : r.operator ≡ contains_all → meets_requirement ps r ≡ has_all ps r.values
  unfolding meets_requirement
  all_case e = rw e refl

  any_case : r.operator ≡ contains_any → meets_requirement ps r ≡ any_of (contains ps) r.values
  unfolding meets_requirement
  any_case e = rw e refl

  none_case :
      r.operator ≡ contains_none
      → meets_requirement ps r ≡ eqb (length (select (contains (insert_all r.values [])) ps)) 0
  unfolding meets_requirement
  none_case e = rw e refl

  equals_case :
      r.operator ≡ equals
      → meets_requirement ps r ≡ (eqb (length ps) (length r.values) && has_all ps r.values)
  unfolding meets_requirement
  equals_case e = rw e refl

  operator_known :
      meets_requirement ps r ≡ true
      → (r.operator ≡ contains_all)
        ⊎ ((r.operator ≡ contains_any) ⊎ ((r.operator ≡ contains_none) ⊎ (r.operator ≡ equals)))
  unfolding meets_requirement
  operator_known h = ground (
    arith,
    h,
    eq_iff r.operator contains_all,
    eq_iff r.operator contains_any,
    eq_iff r.operator contains_none,
    eq_iff r.operator equals,
  )

  none_values_iff :
      (eqb (length (select (contains (insert_all r.values [])) ps)) 0 ≡ true)
      ↔ ((v : String) → contains r.values v ≡ true → contains ps v ≡ false)
  none_values_iff = rw (← set_of r.values) (none_iff ps (insert_all r.values []))

  meets_forward : Distinct ps → DistinctEquals r → meets_requirement ps r ≡ true → Satisfies ps r
  meets_forward dp d h = elim (operator_known h) [
    | inl e ↦ inl (e, (has_all_iff ps r.values).0 (sym (all_case e) ∙ h))
    | inr (inl e) ↦ inr (inl (e, (any_of_iff ps r.values).0 (sym (any_case e) ∙ h)))
    | inr (inr (inl e)) ↦ inr (inr (inl (e, none_values_iff.0 (sym (none_case e) ∙ h))))
    | inr (inr (inr e)) ↦
        inr (inr (inr (e, (equals_iff ps r.values dp (d e)).0 (sym (equals_case e) ∙ h))))
  ]

  meets_backward : Distinct ps → DistinctEquals r → Satisfies ps r → meets_requirement ps r ≡ true
  meets_backward dp d (inl (e, h)) = all_case e ∙ (has_all_iff ps r.values).1 h
  meets_backward dp d (inr (inl (e, h))) = any_case e ∙ (any_of_iff ps r.values).1 h
  meets_backward dp d (inr (inr (inl (e, h)))) = none_case e ∙ none_values_iff.1 h
  meets_backward dp d (inr (inr (inr (e, h)))) =
      equals_case e ∙ (equals_iff ps r.values dp (d e)).1 h

pub meets_all_iff :
    (ps : List String) (rs : List PurposeSelectorRequirement)
    → Distinct ps
    → All DistinctEquals rs
    → (meets_all ps rs ≡ true) ↔ All (Satisfies ps) rs
unfolding meets_all
meets_all_iff ps [] dp d = (λ h. tt, λ h. refl)
meets_all_iff ps (r ∷ rs) dp d = (
  λ h. (
    meets_forward ps r dp d.0 (ground (arith, h)),
    (meets_all_iff ps rs dp d.1).0 (ground (arith, h)),
  ),
  λ h. ground (arith, meets_backward ps r dp d.0 h.0, (meets_all_iff ps rs dp d.1).1 h.1),
)

-- A requirement of equality whose first value is repeated is not met by an object whose purposes are
-- exactly its values.
pub equals_repeated :
    (ps : List String) (r : PurposeSelectorRequirement) (v : String) (vs : List String)
    → r.operator ≡ equals
    → r.values ≡ v ∷ vs
    → contains vs v ≡ true
    → ((u : String) → contains ps u ≡ contains r.values u)
    → meets_requirement (insert_all ps []) r ≡ false
unfolding contains
equals_repeated ps r v vs e ev rep same =
    equals_case (insert_all ps []) r e ∙ ground (arith, ev, shorter)
  where
    shorter : length (insert_all ps []) ≤ length vs
    shorter = length-le_of_subset (insert_all ps []) vs (insert_all-Distinct ps) λ u m.
        ground (arith, m, contains-set ps u, same u, ap (λ l. contains l u) ev, rep, eq_iff v u)
