-- ===== src/Prelude/Text.antt =====
-- Names: texts compared for equality and in Go's order of texts, which is that of their code points.
use Prim.Native.Nat.{Ordering}
use Prim.Native.String.{String, compare}
use mathlib.Core.Path.{◌≡◌}
use mathlib.Core.Bool.{Bool, true, false}
use mathlib.Core.Logic.{◌↔◌}
use text.Mathlib.Text.{◌==◌}
use text.Mathlib.TextEquality
use text.Mathlib.TextPositions
pub use Prim.Native.String.{String}

abbrev pub str_eq : String → String → Bool
str_eq s t = s == t

pub str_eq_iff : (s t : String) → (str_eq s t ≡ true) ↔ (s ≡ t)
str_eq_iff = TextEquality.eq_iff

pub str_eq_refl : (s : String) → str_eq s s ≡ true
str_eq_refl = TextPositions.eq_refl

-- Go's `s < t`.
abbrev pub str_ltb : String → String → Bool
str_ltb s t = elim (compare s t) [ Ordering.lt ↦ true | _ ↦ false ]
