-- ===== src/Common/Breaker/Metrics.antt =====
-- The metrics entry of backend/src/common/utils/circuitBreaker.ts.
use stellar_tipz.Base.{ℕ, ◌+◌, ◌≡◌, arith, if◌then◌else◌}
use stellar_tipz.Common.Breaker.{Breaker, is_open, enter, on_success, on_failure, reset}

pub record Mirrors (b : Breaker) : Type 0 where
  pub same_state : b.metrics.state ≡ b.state
  pub same_failures : b.metrics.failures ≡ b.failure_count

-- What one part of a call may do to the entry: it mirrors the breaker, and `opens` rises by one
-- exactly when the breaker was not open and now is.
abbrev pub Reported : Breaker → Breaker → Type 0
Reported b b' =
    Mirrors b'
    × (b'.metrics.opens ≡ (
        if is_open b.state
        then b.metrics.opens
        else if is_open b'.state
        then b.metrics.opens + 1
        else b.metrics.opens))

-- Every part of a call, in any order with those of other calls, keeps the entry a mirror of the
-- breaker and counts each passage into OPEN once.
parts-Reported :
    (now : ℕ) (b : Breaker)
    → Mirrors b
    → Reported b (enter now b).1
      × Reported b (on_success b)
      × Reported b (on_failure now b)
      × Reported b (reset b)
unfolding enter on_success on_failure reset
parts-Reported now b h = ground arith
