-- ===== src/Common/Stroops.antt =====
-- Amounts at the API boundary (backend/src/common/validation/stroops.ts).
-- A JavaScript number is an integer or another value (a fraction, NaN, an infinity), which is all
-- that the code asks of it. `trim` is left to the caller: the text is the trimmed one.
pub mod Range
mod Tests
use stellar_tipz.Base.{
  ℕ, zero, suc, ◌-◌, ◌^◌, ◌≡◌, Bool, true, false, not, ◌&&◌, Option, none, some, List, [], ◌∷◌, ltb,
  ◌==◌, if◌then◌else◌,
}
use stellar_tipz.Base.Int.{ℤ, pos, negsuc, pos_part, neg_part, ltb_ℤ, eqb_ℤ}
use stellar_tipz.Base.Text.{String, codes, digits_value}

abbrev pub stroops_per_xlm : ℕ
stroops_per_xlm = 10_000_000

abbrev pub max_stroop_amount : ℕ
max_stroop_amount = 2 ^ 63 - 1

-- `input: unknown`
pub data Input : Type 0 where
  bigint : ℤ → Input
  text : List ℕ → Input
  integer : ℤ → Input
  not_integer : Input
  other : Input

pub data AmountError : Type 0 where
  not_an_integer not_a_stroop_amount negative zero_amount above_maximum : AmountError

pub data Parsed (A : Type 0) : Type 0 where
  ok : A → Parsed A
  err : AmountError → Parsed A

-- `-n` as an integer.
abbrev pub negated : ℕ → ℤ
negated zero = pos zero
negated (suc n) = negsuc n

-- `/^-?\d+$/.test(trimmed)` and `BigInt(trimmed)`.
unfoldable pub signed_digits : List ℕ → Option ℤ
unfolding digits_value
signed_digits [] = none
signed_digits (c ∷ cs) =
    if c == b'-'
    then elim (digits_value cs) [ none ↦ none | some n ↦ some (negated n) ]
    else elim (digits_value (c ∷ cs)) [ none ↦ none | some n ↦ some (pos n) ]

-- The first part of `parseStroops`: the input as a bigint.
unfoldable pub to_amount : Input → Parsed ℤ
unfolding signed_digits
to_amount (bigint z) = ok z
to_amount (text s) = elim (signed_digits s) [ none ↦ err not_an_integer | some z ↦ ok z ]
to_amount (integer z) = ok z
to_amount not_integer = err not_an_integer
to_amount other = err not_a_stroop_amount

-- The second part: the range.
unfoldable pub check_amount : Bool → ℤ → Parsed ℤ
check_amount allow_zero value =
    if ltb_ℤ value (pos 0)
    then err negative
    else if eqb_ℤ value (pos 0) && not allow_zero
    then err zero_amount
    else if ltb_ℤ (pos max_stroop_amount) value
    then err above_maximum
    else ok value

unfoldable pub parse_stroops : Bool → Input → Parsed ℤ
unfolding to_amount check_amount
parse_stroops allow_zero input = elim (to_amount input) [
  | ok value ↦ check_amount allow_zero value
  | err e ↦ err e
]
