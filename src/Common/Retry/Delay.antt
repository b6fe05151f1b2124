-- ===== src/Common/Retry/Delay.antt =====
-- `computeDelay` of backend/src/common/utils/retry.ts.
use stellar_tipz.Base.{ℕ, ◌-◌, ◌*◌, ◌^◌, ◌≤◌, min, arith}
use stellar_tipz.Common.Retry.{RetryOptions, compute_delay}

module _ (random : ℕ → ℕ) (random_le : (x : ℕ) → random x ≤ x) where
  pub compute_delay-le :
      (attempt : ℕ) (o : RetryOptions) → compute_delay random attempt o ≤ o.max_delay_ms
  unfolding compute_delay
  compute_delay-le attempt o =
      ground (arith, random_le (min (o.initial_delay_ms * o.factor ^ (attempt - 1)) o.max_delay_ms))
