-- ===== src/Config/Labels.antt =====
-- The label selectors of k8s.io/apimachinery, which the configuration and the API client use.
use openmcp_operator.Prelude.{String, Option, some, List, ◌≡◌, ◌↔◌, Bool, true, All}
use openmcp_operator.Api.Meta.{GoMap, get}

pub record Requirement : Type 0 where
  pub key : String
  pub operator : String
  pub values : List String

-- `metav1.LabelSelector`.
pub record LabelSelector : Type 0 where
  pub match_labels : GoMap
  pub match_expressions : List Requirement

-- `labels.Selector` and what makes one: `as_selector` is `metav1.LabelSelectorAsSelector`, with
-- `none` for its error, `matches` and `is_empty` are methods of a selector, and `meets` is one requirement.
pub record Labels : Type 1 where
  pub Compiled : Type 0
  pub everything : Compiled
  pub as_selector : LabelSelector → Option Compiled
  pub matches : Compiled → GoMap → Bool
  pub is_empty : Compiled → Bool
  pub meets : Requirement → GoMap → Bool

-- What a `metav1.LabelSelector` asks of an object's labels: each entry and each requirement.
abbrev pub Selects : Labels → LabelSelector → GoMap → Type 0
Selects labels ls m =
    ((k v : String) → get k ls.match_labels ≡ some v → get k m ≡ some v)
    × All (λ r. labels.meets r m ≡ true) ls.match_expressions

-- The documented behaviour of the library.
pub record LabelsLaws (labels : Labels) : Type 0 where
  pub everything_matches : (m : GoMap) → labels.matches labels.everything m ≡ true
  pub is_empty_matches :
      (s : labels.Compiled) (m : GoMap) → labels.is_empty s ≡ true → labels.matches s m ≡ true
  pub as_selector_matches :
      (ls : LabelSelector) (s : labels.Compiled) (m : GoMap)
      → labels.as_selector ls ≡ some s
      → (labels.matches s m ≡ true) ↔ Selects labels ls m
