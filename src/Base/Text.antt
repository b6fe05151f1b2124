-- ===== src/Base/Text.antt =====
-- Texts (`string`) with their equality, and the decimal digits of a text.
pub use Prim.Native.String.{String}
pub use text.Mathlib.Text.{◌==◌ as str_eq}
pub use text.Mathlib.TextEquality.{eq_iff}
pub use text.Mathlib.TextPositions.{eq_refl}
use Prim.Native.Char.{code}
use Prim.Native.Nat.{ℕ, ◌+◌, ◌-◌, ◌*◌}
use mathlib.Core.Bool.{Bool, ◌&&◌}
use mathlib.Core.List.{List, [], ◌∷◌, foldl}
use mathlib.Core.Option.{Option, none, some}
use stellar_tipz.Base.Tests.{leb, if◌then◌else◌}
use stellar_tipz.Base.Lists.{every}

-- The code points of a text.
abbrev pub codes : String → List ℕ
codes String.[] = []
codes (String.◌∷◌ c s) = code c ∷ codes s

-- `\d`
abbrev pub is_digit : ℕ → Bool
is_digit c = leb b'0' c && leb c b'9'

abbrev digit_step : ℕ → ℕ → ℕ
digit_step n c = n * 10 + (c - 48)

-- `\d+` of a whole text, and the number that its digits write.
unfoldable pub digits_value : List ℕ → Option ℕ
digits_value [] = none
digits_value (c ∷ cs) = if every is_digit (c ∷ cs) then some (foldl digit_step 0 (c ∷ cs)) else none

-- `/^\d+$/.test(s) ? BigInt(s) : null`
unfoldable pub decimal : String → Option ℕ
unfolding digits_value
decimal s = digits_value (codes s)
