-- ===== src/Config/Selector.antt =====
-- Selectors of the configuration (internal/config/selector.go). A receiver may be nil: `none`.
-- A selector's state comes back from the methods that write it, and `true` is a nil error.
pub mod Combine
use openmcp_operator.Prelude.{
  String, Option, none, some, List, [], ◌∷◌, ◌++◌, Bool, true, false, is_some, if◌then◌else◌,
}
use openmcp_operator.Api.Meta.{Dict, GoMap, put, items}
use openmcp_operator.Config.Labels.{LabelSelector, Requirement, Labels}

pub record Selector (labels : Labels) : Type 0 where
  pub label_selector : Option LabelSelector
  pub completed : Option labels.Compiled

-- `maps.Copy` and `maps.Insert`: the entries of the second map overwrite.
unfoldable pub put_all : Dict → Dict → Dict
put_all m [] = m
put_all m ((k, v) ∷ o) = put k v (put_all m o)

-- The `MatchLabels` of a combination, nil where neither side has an entry.
merge_match_labels : GoMap → GoMap → GoMap
merge_match_labels mine other = elim (items other) [
  | [] ↦ mine
  | e ∷ es ↦ some (put_all (items mine) (e ∷ es))
]

module _ (labels : Labels) where
  unfoldable pub validate : Option (Selector labels) → Bool
  validate none = true
  validate (some s) = elim s.label_selector [
    | none ↦ true
    | some ls ↦ is_some (labels.as_selector ls)
  ]

  -- `Complete` on a selector that is not nil.
  unfoldable pub complete_selector : Selector labels → Selector labels × Bool
  complete_selector s = elim s.label_selector [
    | none ↦ (record s { completed = some labels.everything }, true)
    | some ls ↦ (record s { completed = labels.as_selector ls }, is_some (labels.as_selector ls))
  ]

  unfoldable pub complete : Option (Selector labels) → Option (Selector labels) × Bool
  unfolding complete_selector
  complete none = (none, true)
  complete (some s) = let (t, fine) = complete_selector s in (some t, fine)

  unfoldable pub completed : Option (Selector labels) → labels.Compiled
  completed none = labels.everything
  completed (some s) = elim s.completed [ none ↦ labels.everything | some c ↦ c ]

  -- `if res.completed == nil { err = res.Complete(nil) }`.
  complete_if_needed : Selector labels → Option (Selector labels) × Bool
  unfolding complete
  complete_if_needed s = elim s.completed [ none ↦ complete (some s) | some _ ↦ (some s, true) ]

  -- The selector of a receiver that is set: not nil, with a label selector.
  abbrev pub selector_of : Option (Selector labels) → Option LabelSelector
  selector_of none = none
  selector_of (some s) = s.label_selector

  -- `Combine` where both sides have a label selector.
  merge : Selector labels → LabelSelector → LabelSelector → Option (Selector labels) × Bool
  unfolding complete merge_match_labels
  merge s mine other = complete (
      some (record s {
        label_selector = some (record {
          match_labels = merge_match_labels mine.match_labels other.match_labels;
          match_expressions = mine.match_expressions ++ other.match_expressions;
        });
      }))

  -- `res := other.DeepCopy()` where the receiver has no label selector.
  copy_other : Option (Selector labels) → Option (Selector labels) × Bool
  unfolding complete_if_needed
  copy_other none = (none, true)
  copy_other (some o) = complete_if_needed o

  combine_with :
      Selector labels → LabelSelector → Option LabelSelector → Option (Selector labels) × Bool
  unfolding complete_if_needed merge
  combine_with s mine none = complete_if_needed s
  combine_with s mine (some other) = merge s mine other

  combine_none : Option (Selector labels) → Option LabelSelector → Option (Selector labels) × Bool
  unfolding copy_other
  combine_none other none = (none, true)
  combine_none other (some ls) = copy_other other

  unfoldable pub combine :
      Option (Selector labels) → Option (Selector labels) → Option (Selector labels) × Bool
  unfolding combine_with combine_none
  combine none other = combine_none other (selector_of other)
  combine (some s) other = elim s.label_selector [
    | none ↦ combine_none other (selector_of other)
    | some mine ↦ combine_with s mine (selector_of other)
  ]
