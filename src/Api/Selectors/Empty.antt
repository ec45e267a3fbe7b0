-- ===== src/Api/Selectors/Empty.antt =====
-- Requirements without values (PurposeSelector.Matches and the comment on Values in
-- api/clusters/v1alpha1/selectors.go, which says that such a ContainsAll matches no objects).
use openmcp_operator.Prelude.{
  String, Bool, some, List, [], ◌∷◌, true, false, ◌≡◌, ◌↔◌, inl, inr, refl, arith, All, contains,
  eq_refl, eq_iff, Bool-cases, ◌==◌,
}
use openmcp_operator.Api.Selectors.{
  ObjectWithPurposes, PurposeSelector, contains_all, contains_any, contains_none, equals,
  matches_purpose,
}
use openmcp_operator.Api.Selectors.Requirements.{Satisfies}
use openmcp_operator.Api.Selectors.Meaning.{matches_purpose_iff}

no_purposes : (ps : List String) → ((v : String) → contains ps v ≡ false) → ps ≡ []
unfolding contains
no_purposes [] h = refl
no_purposes (p ∷ ps) h = absurd (ground (arith, h p, eq_refl p))

unequal : (x y : String) → (x == y) ≡ false → x ≡ y → ⊥
unequal x y f e = ground (arith, f, (eq_iff x y).1 e)

-- The selector with one requirement, which has no values.
abbrev pub without_values : String → PurposeSelector
without_values op = record { match_purposes = record { operator = op; values = [] } ∷ [] }

module _ (o : ObjectWithPurposes) where
  abbrev matches : String → Bool
  matches op = matches_purpose (some (without_values op)) (some o)

  matches_iff :
      (op : String)
      → (matches op ≡ true) ↔ All (Satisfies o.purposes) (without_values op).match_purposes
  matches_iff op = matches_purpose_iff (without_values op) o ((λ e. tt), tt)

  any_unsatisfied :
      All (Satisfies o.purposes) (without_values contains_any).match_purposes
      → matches contains_any ≡ false
  unfolding contains
  any_unsatisfied (inl (e, h), u) = absurd (unequal contains_any contains_all refl e)
  any_unsatisfied (inr (inl (e, (v, m, h))), u) = absurd (ground (arith, m))
  any_unsatisfied (inr (inr (inl (e, h))), u) = absurd (unequal contains_any contains_none refl e)
  any_unsatisfied (inr (inr (inr (e, h))), u) = absurd (unequal contains_any equals refl e)

  equals_purposes :
      All (Satisfies o.purposes) (without_values equals).match_purposes → o.purposes ≡ []
  unfolding contains
  equals_purposes (inl (e, h), u) = absurd (unequal equals contains_all refl e)
  equals_purposes (inr (inl (e, (v, m, h))), u) = absurd (ground (arith, e))
  equals_purposes (inr (inr (inl (e, h))), u) = absurd (unequal equals contains_none refl e)
  equals_purposes (inr (inr (inr (e, h))), u) = no_purposes o.purposes h

  -- A selector with one requirement, which has no values, matches every object for ContainsAll and
  -- ContainsNone, none for ContainsAny, and exactly the objects without purposes for Equals.
  pub matches_without_values :
      (matches_purpose (some (without_values contains_all)) (some o) ≡ true)
      × (matches_purpose (some (without_values contains_any)) (some o) ≡ false)
      × (matches_purpose (some (without_values contains_none)) (some o) ≡ true)
      × ((matches_purpose (some (without_values equals)) (some o) ≡ true) ↔ (o.purposes ≡ []))
  unfolding contains
  matches_without_values = (
    (matches_iff contains_all).1 (inl (refl, λ v m. absurd (ground (arith, m))), tt),
    elim (Bool-cases (matches contains_any)) [
      | inl e ↦ any_unsatisfied ((matches_iff contains_any).0 e)
      | inr e ↦ e
    ],
    (matches_iff contains_none).1 (inr (inr (inl (refl, λ v m. absurd (ground (arith, m))))), tt),
    (
      λ h. equals_purposes ((matches_iff equals).0 h),
      λ e. (matches_iff equals).1 (inr (inr (inr (refl, λ v. rw e refl))), tt),
    ),
  )
