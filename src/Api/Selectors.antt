-- ===== src/Api/Selectors.antt =====
-- Selectors of objects by identity, purpose and label (api/clusters/v1alpha1/selectors.go). A nil
-- receiver and a nil object are `none`.
pub mod Requirements
pub mod Meaning
pub mod Empty
use openmcp_operator.Prelude.{
  String, Option, none, some, List, [], ◌∷◌, Bool, true, false, not, ◌&&◌, ◌||◌, ◌==◌, eqb, length,
  contains, insert_all, any_of, select, is_some, if◌then◌else◌,
}
use openmcp_operator.Api.Meta.{GoMap, ObjectReference}
use openmcp_operator.Config.Labels.{Labels, LabelSelector}

-- `ObjectWithPurposes`, by its getters.
pub record ObjectWithPurposes : Type 0 where
  pub name : String
  pub namespace : String
  pub labels : GoMap
  pub purposes : List String

pub record IdentitySelector : Type 0 where
  pub match_identities : Option (List ObjectReference)

pub record PurposeSelectorRequirement : Type 0 where
  pub operator : String
  pub values : List String

pub record PurposeSelector : Type 0 where
  pub match_purposes : List PurposeSelectorRequirement

pub record IdentityLabelPurposeSelector : Type 0 where
  pub identity : IdentitySelector
  pub purpose : PurposeSelector
  pub label : LabelSelector

pub record IdentityLabelSelector : Type 0 where
  pub identity : IdentitySelector
  pub label : LabelSelector

pub record IdentityPurposeSelector : Type 0 where
  pub identity : IdentitySelector
  pub purpose : PurposeSelector

pub record LabelPurposeSelector : Type 0 where
  pub purpose : PurposeSelector
  pub label : LabelSelector

abbrev pub contains_all : String
contains_all = "ContainsAll"

abbrev pub contains_any : String
contains_any = "ContainsAny"

abbrev pub contains_none : String
contains_none = "ContainsNone"

abbrev pub equals : String
equals = "Equals"

-- The loop over the identities.
unfoldable pub is_listed : ObjectWithPurposes → List ObjectReference → Bool
is_listed o [] = false
is_listed o (id ∷ ids) =
    let rest = is_listed o ids in
    if o.name == id.name && o.namespace == id.namespace then true else rest

unfoldable pub empty_identity : Option IdentitySelector → Bool
empty_identity none = true
empty_identity (some s) = not (is_some s.match_identities)

unfoldable pub matches_identity : Option IdentitySelector → Option ObjectWithPurposes → Bool
matches_identity none obj = true
matches_identity (some s) none = true
matches_identity (some s) (some o) = elim s.match_identities [
  | none ↦ true
  | some ids ↦ is_listed o ids
]

-- `HasAll` of a set.
unfoldable pub has_all : List String → List String → Bool
has_all ps [] = true
has_all ps (v ∷ vs) = contains ps v && has_all ps vs

-- One case of the `switch`, on the set of the purposes of the object.
unfoldable pub meets_requirement : List String → PurposeSelectorRequirement → Bool
meets_requirement ps r =
    if r.operator == contains_all
    then has_all ps r.values
    else if r.operator == contains_any
    then any_of (contains ps) r.values
    else if r.operator == contains_none
    then eqb (length (select (contains (insert_all r.values [])) ps)) 0
    else if r.operator == equals
    then eqb (length ps) (length r.values) && has_all ps r.values
    else false

unfoldable pub meets_all : List String → List PurposeSelectorRequirement → Bool
meets_all ps [] = true
meets_all ps (r ∷ rs) = let rest = meets_all ps rs in if meets_requirement ps r then rest else false

unfoldable pub empty_purpose : Option PurposeSelector → Bool
empty_purpose none = true
empty_purpose (some s) = eqb (length s.match_purposes) 0

unfoldable pub matches_purpose : Option PurposeSelector → Option ObjectWithPurposes → Bool
matches_purpose s none = true
matches_purpose none (some o) = true
matches_purpose (some s) (some o) =
    if empty_purpose (some s) then true else meets_all (insert_all o.purposes []) s.match_purposes

-- The loop of `Validate` over the requirements.
unfoldable pub valid_operators : List PurposeSelectorRequirement → Bool
valid_operators [] = true
valid_operators (r ∷ rs) =
    let rest = valid_operators rs in
    if contains (contains_all ∷ contains_any ∷ contains_none ∷ equals ∷ []) r.operator
    then rest
    else false

unfoldable pub validate_purpose : Option PurposeSelector → Bool
validate_purpose none = true
validate_purpose (some s) = valid_operators s.match_purposes

-- Which part of an aggregate is invalid.
pub data SelectorError : Type 0 where
  invalid_label_selector invalid_purpose_selector : SelectorError

module _ (labels : Labels) where
  unfoldable pub empty_label : Option LabelSelector → Bool
  empty_label none = true
  empty_label (some s) = elim (labels.as_selector s) [ none ↦ false | some ls ↦ labels.is_empty ls ]

  unfoldable pub matches_label : Option LabelSelector → Option ObjectWithPurposes → Bool
  matches_label s none = true
  matches_label none (some o) = true
  matches_label (some s) (some o) =
      if empty_label (some s)
      then true
      else elim (labels.as_selector s) [ none ↦ false | some ls ↦ labels.matches ls o.labels ]

  unfoldable pub validate_label : Option LabelSelector → Bool
  validate_label none = true
  validate_label (some s) = is_some (labels.as_selector s)

  -- `none` is a valid selector; the identity selector has nothing to validate.
  abbrev check_label : LabelSelector → Option SelectorError
  check_label s = if validate_label (some s) then none else some invalid_label_selector

  abbrev check_purpose : PurposeSelector → Option SelectorError
  check_purpose s = if validate_purpose (some s) then none else some invalid_purpose_selector

  abbrev check_both : LabelSelector → PurposeSelector → Option SelectorError
  check_both l p = if validate_label (some l) then check_purpose p else some invalid_label_selector

  unfoldable pub empty_identity_label_purpose : Option IdentityLabelPurposeSelector → Bool
  empty_identity_label_purpose none = true
  empty_identity_label_purpose (some s) =
      empty_identity (some s.identity)
      && empty_purpose (some s.purpose)
      && empty_label (some s.label)

  unfoldable pub matches_identity_label_purpose :
      Option IdentityLabelPurposeSelector → Option ObjectWithPurposes → Bool
  matches_identity_label_purpose none obj = true
  matches_identity_label_purpose (some s) none = true
  matches_identity_label_purpose (some s) (some o) =
      if empty_identity_label_purpose (some s)
      then true
      else if not (empty_identity (some s.identity))
      then matches_identity (some s.identity) (some o)
      else matches_purpose (some s.purpose) (some o) && matches_label (some s.label) (some o)

  unfoldable pub validate_identity_label_purpose :
      Option IdentityLabelPurposeSelector → Option SelectorError
  validate_identity_label_purpose none = none
  validate_identity_label_purpose (some s) = check_both s.label s.purpose

  unfoldable pub empty_identity_label : Option IdentityLabelSelector → Bool
  empty_identity_label none = true
  empty_identity_label (some s) = empty_identity (some s.identity) && empty_label (some s.label)

  unfoldable pub matches_identity_label :
      Option IdentityLabelSelector → Option ObjectWithPurposes → Bool
  matches_identity_label none obj = true
  matches_identity_label (some s) none = true
  matches_identity_label (some s) (some o) =
      if empty_identity_label (some s)
      then true
      else if not (empty_identity (some s.identity))
      then matches_identity (some s.identity) (some o)
      else matches_label (some s.label) (some o)

  unfoldable pub validate_identity_label : Option IdentityLabelSelector → Option SelectorError
  validate_identity_label none = none
  validate_identity_label (some s) = check_label s.label

  unfoldable pub empty_label_purpose : Option LabelPurposeSelector → Bool
  empty_label_purpose none = true
  empty_label_purpose (some s) = empty_label (some s.label) && empty_purpose (some s.purpose)

  unfoldable pub matches_label_purpose :
      Option LabelPurposeSelector → Option ObjectWithPurposes → Bool
  matches_label_purpose none obj = true
  matches_label_purpose (some s) none = true
  matches_label_purpose (some s) (some o) =
      if empty_label_purpose (some s)
      then true
      else matches_label (some s.label) (some o) && matches_purpose (some s.purpose) (some o)

  unfoldable pub validate_label_purpose : Option LabelPurposeSelector → Option SelectorError
  validate_label_purpose none = none
  validate_label_purpose (some s) = check_both s.label s.purpose

unfoldable pub empty_identity_purpose : Option IdentityPurposeSelector → Bool
empty_identity_purpose none = true
empty_identity_purpose (some s) = empty_identity (some s.identity) && empty_purpose (some s.purpose)

unfoldable pub matches_identity_purpose :
    Option IdentityPurposeSelector → Option ObjectWithPurposes → Bool
matches_identity_purpose none obj = true
matches_identity_purpose (some s) none = true
matches_identity_purpose (some s) (some o) =
    if empty_identity_purpose (some s)
    then true
    else if not (empty_identity (some s.identity))
    then matches_identity (some s.identity) (some o)
    else matches_purpose (some s.purpose) (some o)

unfoldable pub validate_identity_purpose : Option IdentityPurposeSelector → Option SelectorError
validate_identity_purpose none = none
validate_identity_purpose (some s) =
    if validate_purpose (some s.purpose) then none else some invalid_purpose_selector
