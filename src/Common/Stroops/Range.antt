-- ===== src/Common/Stroops/Range.antt =====
-- The range of accepted amounts in backend/src/common/validation/stroops.ts.
use stellar_tipz.Base.{◌≡◌, ◌≢◌, ◌⊎◌, Bool, true, false, arith}
use stellar_tipz.Base.Int.{ℤ, pos, ◌≤ℤ◌}
use stellar_tipz.Common.Stroops.{Input, ok, max_stroop_amount, parse_stroops, to_amount}

-- An input that reads as the integer z is accepted exactly when z is at least 1 (at least 0 if zero
-- is allowed) and at most 2^63 - 1: whatever amount comes out is z with z in that range, and each z
-- in that range comes out.
pub parse_stroops_exact :
    (allow_zero : Bool) (input : Input) (z v : ℤ)
    → to_amount input ≡ ok z
    → (parse_stroops allow_zero input ≡ ok v
        → (v ≡ z) × (pos 0 ≤ℤ z) × (z ≤ℤ pos max_stroop_amount) × (allow_zero ≡ false → z ≢ pos 0))
      × (pos 0 ≤ℤ z
          → z ≤ℤ pos max_stroop_amount
          → (allow_zero ≡ true) ⊎ (pos 1 ≤ℤ z)
          → parse_stroops allow_zero input ≡ ok z)
unfolding parse_stroops
parse_stroops_exact allow_zero input z v e = ground arith
