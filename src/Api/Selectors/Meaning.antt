-- ===== src/Api/Selectors/Meaning.antt =====
-- What the selectors of objects match, by what their parts say.
use openmcp_operator.Prelude.{
  String, none, some, List, [], ◌∷◌, true, false, ◌&&◌, ◌==◌, ◌≡◌, ◌↔◌, ◌⊎◌, inl, inr, refl, arith,
  sym, ◌∙◌, subst, eqb, length, All, insert_all, is_some, if◌then◌else◌, eq_iff, Bool-cases,
  Option-cases,
}
use openmcp_operator.Api.Meta.{ObjectReference}
use openmcp_operator.Config.Labels.{Labels, LabelsLaws, LabelSelector, Selects}
use openmcp_operator.Api.Selectors.Requirements.{
  SatisfiesBy, Satisfies, DistinctEquals, set_of, meets_all_iff, insert_all-Distinct,
}
use openmcp_operator.Api.Selectors.{
  ObjectWithPurposes, PurposeSelectorRequirement, PurposeSelector, IdentityLabelPurposeSelector,
  is_listed, empty_identity, matches_identity, meets_all, empty_purpose, matches_purpose,
  empty_label, matches_label, empty_identity_label_purpose, matches_identity_label_purpose,
  validate_identity_label_purpose, validate_label,
}

purposes_iff :
    (raw : List String) (rs : List PurposeSelectorRequirement)
    → All DistinctEquals rs
    → ((if eqb (length rs) 0 then true else meets_all (insert_all raw []) rs) ≡ true)
      ↔ All (Satisfies raw) rs
purposes_iff raw [] d = (λ h. tt, λ h. refl)
purposes_iff raw (r ∷ rs) d =
    let some_there : eqb (length (r ∷ rs)) 0 ≡ false = ground arith in
    rw some_there (
      subst
        (λ has. (meets_all (insert_all raw []) (r ∷ rs) ≡ true) ↔ All (SatisfiesBy has) (r ∷ rs))
        (set_of raw) (meets_all_iff (insert_all raw []) (r ∷ rs) (insert_all-Distinct raw) d))

-- A purpose selector whose requirements of equality name distinct values matches an object exactly
-- when the purposes of the object satisfy each requirement by its operator. Here every object
-- satisfies ContainsAll without values, unlike the comment on the values says.
pub matches_purpose_iff :
    (s : PurposeSelector) (o : ObjectWithPurposes)
    → All DistinctEquals s.match_purposes
    → (matches_purpose (some s) (some o) ≡ true) ↔ All (Satisfies o.purposes) s.match_purposes
unfolding matches_purpose empty_purpose
matches_purpose_iff s o d = purposes_iff o.purposes s.match_purposes d

-- One of the references is the name and namespace of the object.
abbrev pub Listed : ObjectWithPurposes → List ObjectReference → Type 0
Listed o [] = ⊥
Listed o (id ∷ ids) = ((o.name ≡ id.name) × (o.namespace ≡ id.namespace)) ⊎ Listed o ids

is_listed_iff :
    (o : ObjectWithPurposes) (ids : List ObjectReference) → (is_listed o ids ≡ true) ↔ Listed o ids
unfolding is_listed
is_listed_iff o [] = (λ h. absurd (ground arith), λ h. absurd h)
is_listed_iff o (id ∷ ids) = (
  λ h. elim (Bool-cases (o.name == id.name && o.namespace == id.namespace)) [
    | inl e ↦ inl (
      (eq_iff o.name id.name).0 (ground (arith, e)),
      (eq_iff o.namespace id.namespace).0 (ground (arith, e)),
    )
    | inr e ↦ inr ((is_listed_iff o ids).0 (ground (arith, h, e)))
  ],
  λ h. elim h [
    | inl (n, m) ↦
        ground (arith, (eq_iff o.name id.name).1 n, (eq_iff o.namespace id.namespace).1 m)
    | inr q ↦ ground (arith, (is_listed_iff o ids).1 q)
  ],
)

module _ (labels : Labels) (laws : LabelsLaws labels) where
  matches_label_compiled :
      (s : LabelSelector) (o : ObjectWithPurposes) (c : labels.Compiled)
      → labels.as_selector s ≡ some c
      → matches_label labels (some s) (some o) ≡ labels.matches c o.labels
  unfolding matches_label empty_label
  matches_label_compiled s o c e = ground (arith, e, laws.is_empty_matches c o.labels)

  matches_label_iff :
      (s : LabelSelector) (o : ObjectWithPurposes)
      → is_some (labels.as_selector s) ≡ true
      → (matches_label labels (some s) (some o) ≡ true) ↔ Selects labels s o.labels
  matches_label_iff s o h = elim (Option-cases (labels.as_selector s)) [
    | inl e ↦ absurd (ground (arith, e, h))
    | inr (c, e) ↦ rw (matches_label_compiled s o c e) (laws.as_selector_matches s c o.labels e)
  ]

  -- The identities decide if there are any, else purposes and labels do.
  abbrev pub Means : IdentityLabelPurposeSelector → ObjectWithPurposes → Type 0
  Means s o =
      ((ids : List ObjectReference) × (s.identity.match_identities ≡ some ids) × Listed o ids)
      ⊎ ((s.identity.match_identities ≡ none)
          × All (Satisfies o.purposes) s.purpose.match_purposes
          × Selects labels s.label o.labels)

  by_identity :
      (s : IdentityLabelPurposeSelector) (o : ObjectWithPurposes) (ids : List ObjectReference)
      → s.identity.match_identities ≡ some ids
      → matches_identity_label_purpose labels (some s) (some o) ≡ is_listed o ids
  unfolding matches_identity_label_purpose empty_identity_label_purpose empty_identity
      matches_identity
  by_identity s o ids e = ground (arith, e)

  by_rest :
      (s : IdentityLabelPurposeSelector) (o : ObjectWithPurposes)
      → s.identity.match_identities ≡ none
      → matches_identity_label_purpose labels (some s) (some o) ≡ (
          matches_purpose (some s.purpose) (some o) && matches_label labels (some s.label) (some o))
  unfolding matches_identity_label_purpose empty_identity_label_purpose empty_identity
      matches_purpose matches_label
  by_rest s o e = ground (arith, e)

  -- A valid selector whose requirements of equality name distinct purposes matches an object exactly
  -- if the identities are set and list the object, or they are not set, the purposes of the object
  -- satisfy each requirement by its operator, and its labels are selected. Here every object satisfies
  -- ContainsAll without values, unlike the comment on the values says.
  pub matches_identity_label_purpose_iff :
      (s : IdentityLabelPurposeSelector) (o : ObjectWithPurposes)
      → validate_identity_label_purpose labels (some s) ≡ none
      → All DistinctEquals s.purpose.match_purposes
      → (matches_identity_label_purpose labels (some s) (some o) ≡ true) ↔ Means s o
  unfolding validate_identity_label_purpose validate_label
  matches_identity_label_purpose_iff s o v d = elim (Option-cases s.identity.match_identities) [
    | inl e ↦
        let ps = matches_purpose_iff s.purpose o d in
        let ls = matches_label_iff s.label o (ground (arith, v)) in
        (
          λ h.
              let both = sym (by_rest s o e) ∙ h in
              inr (e, ps.0 (ground (arith, both)), ls.0 (ground (arith, both))),
          λ m. elim m [
            | inl (ids, q, l) ↦ absurd (ground (arith, e, q))
            | inr (q, p, l) ↦ by_rest s o e ∙ ground (arith, ps.1 p, ls.1 l)
          ],
        )
    | inr (ids, e) ↦ (
      λ h. inl (ids, e, (is_listed_iff o ids).0 (sym (by_identity s o ids e) ∙ h)),
      λ m. elim m [
        | inl (ids', q, l) ↦ by_identity s o ids' q ∙ (is_listed_iff o ids').1 l
        | inr (q, p, l) ↦ absurd (ground (arith, e, q))
      ],
    )
  ]
