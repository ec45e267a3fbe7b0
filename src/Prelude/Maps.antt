-- ===== src/Prelude/Maps.antt =====
-- Go maps from texts to values of any type; a key stands once.
use Prim.Native.String.{String}
use Prim.Native.Nat.{◌<◌}
use mathlib.Core.Path.{◌≡◌}
use mathlib.Core.Logic.{◌≢◌}
use mathlib.Core.Bool.{true, not, ◌&&◌, ◌||◌}
use mathlib.Core.Option.{Option, none, some}
use mathlib.Core.List.{List, [], ◌∷◌}
use native.Mathlib.Omega.{arith}
use text.Mathlib.Text.{◌==◌}
use text.Mathlib.TextEquality.{eq_iff}
use openmcp_operator.Prelude.Tests.{if◌then◌else◌}
use openmcp_operator.Prelude.Lists.{length, contains}

abbrev pub MapOf : Type 0 → Type 0
MapOf A = List (String × A)

module _ {A : Type 0} where
  -- `v, ok := m[k]`.
  unfoldable pub value_at : String → MapOf A → Option A
  value_at k [] = none
  value_at k ((j, v) ∷ m) = if j == k then some v else value_at k m

  -- `m[k] = v`.
  unfoldable pub set_at : String → A → MapOf A → MapOf A
  set_at k v [] = (k, v) ∷ []
  set_at k v ((j, w) ∷ m) = if j == k then (k, v) ∷ m else (j, w) ∷ set_at k v m

  -- `delete(m, k)`.
  unfoldable pub delete_at : String → MapOf A → MapOf A
  delete_at k [] = []
  delete_at k ((j, w) ∷ m) = let rest = delete_at k m in if j == k then rest else (j, w) ∷ rest

  -- `sets.KeySet(m)`.
  unfoldable pub keys : MapOf A → List String
  keys [] = []
  keys ((k, v) ∷ m) = k ∷ keys m

  pub value_at-set_at :
      (k j : String) (v : A) (m : MapOf A)
      → value_at j (set_at k v m) ≡ (if k == j then some v else value_at j m)
  unfolding value_at set_at
  value_at-set_at k j v [] = ground arith
  value_at-set_at k j v ((i, w) ∷ m) =
      ground (arith, eq_iff k j, eq_iff i k, eq_iff i j, value_at-set_at k j v m)

  pub contains-keys-delete_at :
      (k j : String) (m : MapOf A)
      → contains (keys (delete_at k m)) j ≡ (not (k == j) && contains (keys m) j)
  unfolding contains keys delete_at
  contains-keys-delete_at k j [] = ground arith
  contains-keys-delete_at k j ((i, w) ∷ m) =
      ground (arith, eq_iff k j, eq_iff i k, eq_iff i j, contains-keys-delete_at k j m)

  pub contains-keys-set_at :
      (k j : String) (v : A) (m : MapOf A)
      → contains (keys (set_at k v m)) j ≡ (k == j || contains (keys m) j)
  unfolding contains keys set_at
  contains-keys-set_at k j v [] = ground arith
  contains-keys-set_at k j v ((i, w) ∷ m) =
      ground (arith, eq_iff k j, eq_iff i k, eq_iff i j, contains-keys-set_at k j v m)

  -- Two keys are more than one.
  pub two_keys :
      (i j : String) (m : MapOf A)
      → i ≢ j
      → contains (keys m) i ≡ true
      → contains (keys m) j ≡ true
      → 1 < length m
  unfolding contains keys
  two_keys i j [] n h k = absurd (ground arith)
  two_keys i j ((k1, v) ∷ []) n h k = absurd (ground (arith, eq_iff k1 i, eq_iff k1 j, n, h, k))
  two_keys i j (e1 ∷ e2 ∷ m) n h k = ground arith
