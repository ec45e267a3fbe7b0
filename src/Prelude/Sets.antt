-- ===== src/Prelude/Sets.antt =====
-- Lists of texts as sets: distinct lists, and their lengths under inclusion.
use Prim.Native.Nat.{suc, ◌≤◌}
use Prim.Native.String.{String}
use mathlib.Core.Path.{◌≡◌}
use mathlib.Core.Bool.{true, false}
use mathlib.Core.List.{List, [], ◌∷◌}
use mathlib.Core.Logic.{◌≢◌}
use native.Mathlib.Omega.{arith}
use text.Mathlib.Text.{◌==◌}
use text.Mathlib.TextEquality.{eq_iff}
use text.Mathlib.TextPositions.{eq_refl}
use openmcp_operator.Prelude.Tests.{if◌then◌else◌}
use openmcp_operator.Prelude.Lists.{length, contains, insert}

abbrev pub Distinct : List String → Type 0
Distinct [] = Unit
Distinct (x ∷ xs) = (contains xs x ≡ false) × Distinct xs

pub insert-Distinct : (a : String) (xs : List String) → Distinct xs → Distinct (insert a xs)
unfolding insert
insert-Distinct a xs d = ground arith

erase : String → List String → List String
erase a [] = []
erase a (x ∷ xs) = if x == a then xs else x ∷ erase a xs

length-erase :
    (a : String) (xs : List String) → contains xs a ≡ true → length xs ≡ suc (length (erase a xs))
unfolding erase contains
length-erase a [] h = ground arith
length-erase a (x ∷ xs) h = ground (arith, length-erase a xs)

contains-erase :
    (a b : String) (xs : List String)
    → a ≢ b
    → contains xs b ≡ true
    → contains (erase a xs) b ≡ true
unfolding erase contains
contains-erase a b [] n h = h
contains-erase a b (x ∷ xs) n h =
    ground (arith, contains-erase a b xs, eq_iff x a, eq_iff x b, eq_iff a b)

-- A distinct list that is included in another is no longer than it.
pub length-le_of_subset :
    (xs ys : List String)
    → Distinct xs
    → ((a : String) → contains xs a ≡ true → contains ys a ≡ true)
    → length xs ≤ length ys
unfolding contains
length-le_of_subset [] ys d h = omega arith
length-le_of_subset (x ∷ xs) ys d h =
    let there : contains ys x ≡ true = h x (ground (arith, eq_refl x)) in
    let rest : length xs ≤ length (erase x ys) =
      length-le_of_subset xs (erase x ys) d.1
        (λ a m. contains-erase x a ys (apart a m) (h a (ground (arith, m)))) in
    omega (arith, rest, length-erase x ys there)
  where
    apart : (a : String) → contains xs a ≡ true → x ≢ a
    apart a m e = cc d.0
