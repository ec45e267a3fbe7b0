-- ===== src/Prelude/Texts.antt =====
-- Go's string functions that the operator uses, over the native texts.
use Prim.Native.String.{String, ◌++◌, len, slice}
use mathlib.Core.Path.{◌≡◌, ap}
use mathlib.Core.Bool.{true}
use native.Mathlib.Omega.{arith}
use mathlib.Core.Option.{Option, none, some}
use text.Mathlib.Text.{◌==◌, starts_with}
use text.Mathlib.TextEquality.{starts_with_iff}
use text.Mathlib.TextPositions.{eq_refl, starts_with-append, slice-append_right, len-append}
use openmcp_operator.Prelude.Tests.{if◌then◌else◌}
pub use text.Mathlib.Text.{◌==◌, starts_with}
pub use text.Mathlib.TextEquality.{eq_iff}
pub use text.Mathlib.TextPositions.{eq_refl}

-- Joining two texts.
infixr 66 ◌<>◌
abbrev pub ◌<>◌ : String → String → String
s <> t = s ++ t

-- `strings.CutPrefix`, `none` for a text without the prefix.
unfoldable pub cut_prefix : String → String → Option String
cut_prefix s p = if starts_with s p then some (slice s (len p) (len s)) else none

pub cut_prefix-append : (p u : String) → cut_prefix (p <> u) p ≡ some u
unfolding cut_prefix
cut_prefix-append p u = rw (starts_with-append, len-append) (ap some (slice-append_right p u))

starts_with_of_cut_prefix : (p f u : String) → cut_prefix f p ≡ some u → starts_with f p ≡ true
unfolding cut_prefix
starts_with_of_cut_prefix p f u h = ground arith

-- What is cut off comes back in front of the rest.
pub cut_prefix-some : (p f u : String) → cut_prefix f p ≡ some u → p <> u ≡ f
cut_prefix-some p f u h =
    let (v, e) = (starts_with_iff f p).0 (starts_with_of_cut_prefix p f u h) in
    cc (e, cut_prefix-append p v)
