-- ===== src/Common/Breaker/Interleaved.antt =====
-- Calls of backend/src/common/utils/circuitBreaker.ts that overlap.
use stellar_tipz.Base.{ℕ, ◌≤◌, ◌<◌, ◌≡◌, true, arith}
use stellar_tipz.Common.Breaker.{Breaker, open_state, half_open, enter, on_success, on_failure}

-- A call that began before the breaker opened returns, a trial call is then let in at `t`, and it
-- fails at `t'`.
pub late_success_then_trial : ℕ → ℕ → Breaker → Breaker
late_success_then_trial t t' b = on_failure t' (enter t (on_success b)).1

-- From any open breaker with a threshold above 1, one such late success ends the protection: the
-- next call is let in at any time `t` past the reset timeout counted from 0, however recent the
-- last failure; its failure leaves the breaker half open instead of open; and the call after it is
-- let in at any time.
pub late_success_disarms :
    (t t' t'' : ℕ) (b : Breaker)
    → b.state ≡ open_state
    → 1 < b.failure_threshold
    → b.reset_timeout_ms ≤ t
    → ((enter t (on_success b)).0 ≡ true)
      × ((late_success_then_trial t t' b).state ≡ half_open)
      × ((enter t'' (late_success_then_trial t t' b)).0 ≡ true)
unfolding late_success_then_trial enter on_success on_failure
late_success_disarms t t' t'' b o h r = ground arith
