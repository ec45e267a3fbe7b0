-- ===== src/Config/Selector/Combine.antt =====
-- What a combination of two selectors matches (internal/config/selector.go, Combine).
use openmcp_operator.Prelude.{
  String, Option, none, some, List, [], ◌∷◌, ◌++◌, true, ◌≡◌, ◌↔◌, Option-cases, inl, inr, refl,
  sym, ◌∙◌, arith, eq_iff, is_some, All,
}
use openmcp_operator.Api.Meta.{Dict, GoMap, get, items, lookup, lookup-put}
use openmcp_operator.Config.Labels.{LabelSelector, Labels, LabelsLaws, Selects}
use openmcp_operator.Config.Selector.{
  Selector, complete, combine, merge, completed, put_all, merge_match_labels,
}

-- Entries of the second map win.
abbrev pub first_of_both : Option String → Option String → Option String
first_of_both (some v) o = some v
first_of_both none o = o

lookup-put_all :
    (j : String) (m o : Dict) → lookup j (put_all m o) ≡ first_of_both (lookup j o) (lookup j m)
unfolding put_all lookup
lookup-put_all j m [] = refl
lookup-put_all j m ((k, v) ∷ o) =
    ground (arith, lookup-put k j v (put_all m o), lookup-put_all j m o, eq_iff k j)

get-merge_match_labels :
    (j : String) (mine other : GoMap)
    → get j (merge_match_labels mine other) ≡ first_of_both (get j other) (get j mine)
unfolding merge_match_labels lookup
get-merge_match_labels j mine none = refl
get-merge_match_labels j mine (some []) = refl
get-merge_match_labels j mine (some (e ∷ es)) = lookup-put_all j (items mine) (e ∷ es)

module _ {ℓ κ} {A : Type ℓ} (P : A → Type κ) where
  All-append : (xs ys : List A) → All P (xs ++ ys) ↔ (All P xs × All P ys)
  All-append [] ys = (λ h. (tt, h), λ h. h.1)
  All-append (x ∷ xs) ys = (
    λ h. let both = (All-append xs ys).0 h.1 in ((h.0, both.0), both.1),
    λ h. (h.0.0, (All-append xs ys).1 (h.0.1, h.1)),
  )

module _ (labels : Labels) (laws : LabelsLaws labels) where
  complete_result :
      (t r : Selector labels) (ls : LabelSelector)
      → t.label_selector ≡ some ls
      → complete labels (some t) ≡ (some r, true)
      → (c : labels.Compiled) × (labels.as_selector ls ≡ some c) × (completed labels (some r) ≡ c)
  unfolding complete completed
  complete_result t r ls e h = elim (Option-cases (labels.as_selector ls)) [
    | inl bad ↦ absurd (ground arith)
    | inr (c, fine) ↦ (c, fine, ground arith)
  ]

  complete_matches :
      (t r : Selector labels) (ls : LabelSelector) (m : GoMap)
      → t.label_selector ≡ some ls
      → complete labels (some t) ≡ (some r, true)
      → (labels.matches (completed labels (some r)) m ≡ true) ↔ Selects labels ls m
  complete_matches t r ls m e h =
      let (c, fine, is_c) = complete_result t r ls e h in
      rw is_c (laws.as_selector_matches ls c m fine)

  combine-both :
      (s o : Selector labels) (mine other : LabelSelector)
      → s.label_selector ≡ some mine
      → o.label_selector ≡ some other
      → combine labels (some s) (some o) ≡ merge labels s mine other
  unfolding combine
  combine-both s o mine other es eo = ground arith

  abbrev Combined : LabelSelector → LabelSelector → GoMap → Type 0
  Combined mine other m =
      ((k v : String)
        → first_of_both (get k other.match_labels) (get k mine.match_labels) ≡ some v
        → get k m ≡ some v)
      × All (λ q. labels.meets q m ≡ true) mine.match_expressions
      × All (λ q. labels.meets q m ≡ true) other.match_expressions

  merge_matches :
      (s r : Selector labels) (mine other : LabelSelector) (m : GoMap)
      → merge labels s mine other ≡ (some r, true)
      → (labels.matches (completed labels (some r)) m ≡ true) ↔ Combined mine other m
  unfolding merge
  merge_matches s r mine other m h = (λ p. forth (iff.0 p), λ q. iff.1 (back q))
    where
      ls : LabelSelector
      ls = record {
        match_labels = merge_match_labels mine.match_labels other.match_labels;
        match_expressions = mine.match_expressions ++ other.match_expressions;
      }

      iff : (labels.matches (completed labels (some r)) m ≡ true) ↔ Selects labels ls m
      iff = complete_matches (record s { label_selector = some ls }) r ls m refl h

      split : All (λ q. labels.meets q m ≡ true) ls.match_expressions ↔ (
          All (λ q. labels.meets q m ≡ true) mine.match_expressions
          × All (λ q. labels.meets q m ≡ true) other.match_expressions)
      split = All-append _ mine.match_expressions other.match_expressions

      key :
          (k : String)
          → get k ls.match_labels
            ≡ first_of_both (get k other.match_labels) (get k mine.match_labels)
      key k = get-merge_match_labels k mine.match_labels other.match_labels

      forth : Selects labels ls m → Combined mine other m
      forth p = (λ k v e. p.0 k v (key k ∙ e), (split.0 p.1).0, (split.0 p.1).1)

      back : Combined mine other m → Selects labels ls m
      back q = (λ k v e. q.0 k v (sym (key k) ∙ e), split.1 (q.1, q.2))

  -- If both sides have a label selector and the combination is accepted, it matches a set of
  -- labels exactly when the labels have the entries of `other`, the entries of the receiver
  -- for keys that `other` does not name, and meet the requirements of both.
  pub combine-matches :
      (s o r : Selector labels) (mine other : LabelSelector) (m : GoMap)
      → s.label_selector ≡ some mine
      → o.label_selector ≡ some other
      → combine labels (some s) (some o) ≡ (some r, true)
      → (labels.matches (completed labels (some r)) m ≡ true) ↔ (
          ((k v : String)
            → first_of_both (get k other.match_labels) (get k mine.match_labels) ≡ some v
            → get k m ≡ some v)
          × All (λ q. labels.meets q m ≡ true) mine.match_expressions
          × All (λ q. labels.meets q m ≡ true) other.match_expressions)
  combine-matches s o r mine other m es eo h =
      merge_matches s r mine other m (sym (combine-both s o mine other es eo) ∙ h)

  -- An accepted combination is nil or completed, on every branch.
  pub combine-completed :
      (s o : Option (Selector labels)) (r : Selector labels)
      → combine labels s o ≡ (some r, true)
      → is_some r.completed ≡ true
  unfolding combine
  combine-completed none none r h = ground arith
  combine-completed none (some o) r h = ground arith
  combine-completed (some s) none r h = ground arith
  combine-completed (some s) (some o) r h = ground arith
