-- ===== src/Common/Breaker/Threshold.antt =====
-- Failures in a row, in backend/src/common/utils/circuitBreaker.ts.
use stellar_tipz.Base.{ℕ, ◌+◌, ◌≤◌, ◌<◌, ◌≡◌, refl, ◌∙◌, false, List, [], ◌∷◌, arith, length}
use stellar_tipz.Common.Breaker.{Breaker, closed, open_state, call}

-- Failing calls at the given times, one after the other.
unfoldable pub fail_all : List (ℕ × ℕ) → Breaker → Breaker
fail_all [] b = b
fail_all ((start, finish) ∷ times) b = fail_all times (call start finish false b).1

fail_once :
    (start finish : ℕ) (b : Breaker)
    → b.state ≡ closed
    → b.failure_count + 1 < b.failure_threshold
    → let b' = (call start finish false b).1 in
      (b'.state ≡ closed)
      × (b'.failure_count ≡ b.failure_count + 1)
      × (b'.failure_threshold ≡ b.failure_threshold)
unfolding call
fail_once start finish b c h = ground arith

fail_last :
    (start finish : ℕ) (b : Breaker)
    → b.state ≡ closed
    → b.failure_threshold ≤ b.failure_count + 1
    → (call start finish false b).1.state ≡ open_state
unfolding call
fail_last start finish b c h = ground arith

-- From a closed breaker, failures that with the earlier ones stay below the threshold leave it
-- closed with all of them counted.
pub fail_all_below :
    (times : List (ℕ × ℕ)) (b : Breaker)
    → b.state ≡ closed
    → b.failure_count + length times < b.failure_threshold
    → let b' = fail_all times b in
      (b'.state ≡ closed)
      × (b'.failure_count ≡ b.failure_count + length times)
      × (b'.failure_threshold ≡ b.failure_threshold)
unfolding fail_all
fail_all_below [] b c h = (c, omega arith, refl)
fail_all_below ((start, finish) ∷ times) b c h =
    let now_closed = fail_once start finish b c (omega arith) in
    let rest =
      fail_all_below times (call start finish false b).1 now_closed.0 (omega (arith, now_closed)) in
    (rest.0, omega (arith, rest.1, now_closed), rest.2 ∙ now_closed.2)

-- One more failure, which brings the count to the threshold, opens it.
pub opens_at_threshold :
    (times : List (ℕ × ℕ)) (start finish : ℕ) (b : Breaker)
    → b.state ≡ closed
    → b.failure_count + length times + 1 ≡ b.failure_threshold
    → ((fail_all times b).state ≡ closed)
      × ((call start finish false (fail_all times b)).1.state ≡ open_state)
opens_at_threshold times start finish b c h =
    let below = fail_all_below times b c (omega arith) in
    (below.0, fail_last start finish (fail_all times b) below.0 (omega (arith, below)))
