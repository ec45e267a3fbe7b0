-- ===== src/Prelude/Lists.antt =====
-- Lists measured by native numbers, membership as a test, and sets of texts.
use Prim.Native.Nat.{ℕ, suc}
use Prim.Native.String.{String}
use mathlib.Core.Path.{◌≡◌, refl}
use mathlib.Core.Bool.{Bool, true, false, ◌||◌}
use mathlib.Core.List.{List, [], ◌∷◌, ◌++◌}
use native.Mathlib.Omega.{arith}
use text.Mathlib.Text.{◌==◌}
use text.Mathlib.TextEquality.{eq_iff}
use openmcp_operator.Prelude.Tests.{if◌then◌else◌}

module _ {ℓ} {A : Type ℓ} where
  abbrev pub length : List A → ℕ
  length [] = 0
  length (x ∷ xs) = suc (length xs)

  -- `len(xs) == 0`.
  unfoldable pub is_nil : List A → Bool
  is_nil [] = true
  is_nil (x ∷ xs) = false

  -- The elements that pass the test, in order.
  unfoldable pub select : (A → Bool) → List A → List A
  select p [] = []
  select p (x ∷ xs) = let rest = select p xs in if p x then x ∷ rest else rest

  -- The test passes somewhere.
  unfoldable pub any_of : (A → Bool) → List A → Bool
  any_of p [] = false
  any_of p (x ∷ xs) = p x || any_of p xs

  -- Every element satisfies the predicate.
  abbrev pub All {κ} : (A → Type κ) → List A → Type κ
  All P [] = Unit
  All P (x ∷ xs) = P x × All P xs

  pub All-select : (p : A → Bool) (xs : List A) → All (λ x. p x ≡ true) (select p xs)
  unfolding select
  All-select p [] = tt
  All-select p (x ∷ xs) = ground (arith, All-select p xs)

  pub All-select_of {κ} :
      (P : A → Type κ) (p : A → Bool) (xs : List A) → All P xs → All P (select p xs)
  unfolding select
  All-select_of P p [] h = tt
  All-select_of P p (x ∷ xs) h = ground (arith, All-select_of P p xs h.1)

-- `slices.Contains`, and membership in a `sets.Set`.
unfoldable pub contains : List String → String → Bool
contains [] a = false
contains (x ∷ xs) a = x == a || contains xs a

-- `Set.Insert`.
unfoldable pub insert : String → List String → List String
unfolding contains
insert a xs = if contains xs a then xs else a ∷ xs

-- `Set.Insert` of several elements.
unfoldable pub insert_all : List String → List String → List String
insert_all [] xs = xs
insert_all (a ∷ as_) xs = insert a (insert_all as_ xs)

pub contains-append :
    (xs ys : List String) (a : String) → contains (xs ++ ys) a ≡ (contains xs a || contains ys a)
unfolding contains
contains-append [] ys a = refl
contains-append (x ∷ xs) ys a = ground (arith, contains-append xs ys a)

pub contains-insert :
    (a b : String) (xs : List String) → contains (insert a xs) b ≡ (a == b || contains xs b)
unfolding insert contains
contains-insert a b xs = ground (arith, eq_iff a b)

pub contains-insert_all :
    (as_ xs : List String) (b : String)
    → contains (insert_all as_ xs) b ≡ (contains as_ b || contains xs b)
unfolding insert_all contains
contains-insert_all [] xs b = refl
contains-insert_all (a ∷ as_) xs b =
    ground (arith, contains-insert a b (insert_all as_ xs), contains-insert_all as_ xs b)
