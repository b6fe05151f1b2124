-- ===== src/Base/Decimal.antt =====
-- Numbers printed in decimal, as a template literal prints them.
use Prim.Native.Nat.{ℕ, zero, suc, ◌+◌, ◌-◌, ◌*◌, ◌/◌, ◌%◌, ◌≤◌, ◌<◌}
use mathlib.Core.Path.{◌≡◌, refl, sym, ap, ◌∙◌}
use mathlib.Core.Logic.{inl, inr}
use mathlib.Core.List.{List, [], ◌∷◌, ◌++◌}
use native.Mathlib.Omega.{arith}
use stellar_tipz.Base.Tests.{if◌then◌else◌, ltb, Bool-cases}
use stellar_tipz.Base.Lists.{All}

-- The digits of a number; the fuel is any number above it.
unfoldable pub digits : ℕ → ℕ → List ℕ
digits zero n = []
digits (suc fuel) n =
    let rest = digits fuel (n / 10) in
    if ltb n 10 then (48 + n) ∷ [] else rest ++ ((48 + n % 10) ∷ [])

-- `String(n)`
unfoldable pub print : ℕ → List ℕ
unfolding digits
print n = digits (suc n) n

-- What the digits write.
unfoldable pub value_from : ℕ → List ℕ → ℕ
value_from n [] = n
value_from n (c ∷ cs) = value_from (n * 10 + (c - 48)) cs

value_from-append :
    (n : ℕ) (xs : List ℕ) (c : ℕ) → value_from n (xs ++ (c ∷ [])) ≡ value_from n xs * 10 + (c - 48)
unfolding value_from
value_from-append n [] c = refl
value_from-append n (x ∷ xs) c = value_from-append (n * 10 + (x - 48)) xs c

value_from-digits : (fuel n : ℕ) → n < fuel → value_from 0 (digits fuel n) ≡ n
unfolding digits value_from
value_from-digits zero n h = absurd (omega arith)
value_from-digits (suc fuel) n h = elim (Bool-cases (ltb n 10)) [
  | inl p ↦ rw (p) (omega arith)
  | inr p ↦
      rw
        (
          p,
          value_from-append 0 (digits fuel (n / 10)) (48 + n % 10),
          value_from-digits fuel (n / 10) (ground arith),
        )
        (omega arith)
]

pub value_from-print : (n : ℕ) → value_from 0 (print n) ≡ n
unfolding print
value_from-print n = value_from-digits (suc n) n (omega arith)

pub print_injective : (n m : ℕ) → print n ≡ print m → n ≡ m
print_injective n m e = sym (value_from-print n) ∙ ap (value_from 0) e ∙ value_from-print m

-- Every character is a digit.
abbrev pub IsDigit : ℕ → Type 0
IsDigit c = (48 ≤ c) × (c < 58)

pub All-append {ℓ κ} :
    {A : Type ℓ} (P : A → Type κ) (xs ys : List A) → All P xs → All P ys → All P (xs ++ ys)
All-append P [] ys h k = k
All-append P (x ∷ xs) ys (h, hs) k = (h, All-append P xs ys hs k)

digits-All : (fuel n : ℕ) → All IsDigit (digits fuel n)
unfolding digits
digits-All zero n = tt
digits-All (suc fuel) n = elim (Bool-cases (ltb n 10)) [
  | inl p ↦ rw p ((ground arith, ground arith), tt)
  | inr p ↦
      rw p (All-append IsDigit _ _ (digits-All fuel (n / 10)) ((omega arith, omega arith), tt))
]

pub print-All : (n : ℕ) → All IsDigit (print n)
unfolding print
print-All n = digits-All (suc n) n
