-- ===== src/Common/Breaker.antt =====
-- The circuit breaker (backend/src/common/utils/circuitBreaker.ts).
-- `call` is cut at its `await`: `enter` before it, `on_success` and `on_failure` after it, so that
-- calls in flight at the same time can be interleaved. Times are `Date.now()` values, arguments.
pub mod Sequential
pub mod Metrics
pub mod Threshold
pub mod Interleaved
mod Tests
use stellar_tipz.Base.{
  ℕ, ◌+◌, ◌≡◌, Bool, true, false, Option, none, some, ◌&&◌, not, ltb, leb, if◌then◌else◌,
}

pub data BreakerState : Type 0 where
  closed open_state half_open : BreakerState

abbrev pub is_open : BreakerState → Bool
is_open open_state = true
is_open closed = false
is_open half_open = false

-- The entry of `breakerMetrics` under the breaker's name.
pub record MetricsEntry : Type 0 where
  pub state : BreakerState
  pub failures : ℕ
  pub opens : ℕ

-- `recordCircuitBreakerState`, on the entry that the map has for the name.
unfoldable pub record_state : BreakerState → ℕ → Option MetricsEntry → MetricsEntry
record_state state failures none = record {
  state = state;
  failures = failures;
  opens = if is_open state then 1 else 0;
}
record_state state failures (some e) = record {
  state = state;
  failures = failures;
  opens = if is_open state && not (is_open e.state) then e.opens + 1 else e.opens;
}

pub record Breaker : Type 0 where
  pub failure_threshold : ℕ
  pub reset_timeout_ms : ℕ
  pub state : BreakerState
  pub failure_count : ℕ
  pub last_failure_time : ℕ
  pub metrics : MetricsEntry

-- The breaker's fields, then `recordCircuitBreakerState(this.name, this.state, this.failureCount)`.
abbrev pub note : BreakerState → ℕ → ℕ → Breaker → Breaker
note state count time b = record b {
  state = state;
  failure_count = count;
  last_failure_time = time;
  metrics = record_state state count (some b.metrics);
}

-- `new CircuitBreaker(failureThreshold, resetTimeoutMs)`, under a name with or without an entry.
unfoldable pub new_breaker : ℕ → ℕ → Option MetricsEntry → Breaker
unfolding record_state
new_breaker threshold reset entry = record {
  failure_threshold = threshold;
  reset_timeout_ms = reset;
  state = closed;
  failure_count = 0;
  last_failure_time = 0;
  metrics = record_state closed 0 entry;
}

unfoldable pub reset : Breaker → Breaker
unfolding record_state
reset b = note closed 0 0 b

-- `elapsed >= this.resetTimeoutMs`, with the subtraction moved to the other side.
abbrev pub timed_out : ℕ → Breaker → Bool
timed_out now b = leb (b.last_failure_time + b.reset_timeout_ms) now

-- Up to the `await`: `false` is the throw of `ServiceUnavailableError`.
enter_at : BreakerState → ℕ → Breaker → Bool × Breaker
unfolding record_state
enter_at open_state now b =
    if timed_out now b
    then (true, note half_open b.failure_count b.last_failure_time b)
    else (false, b)
enter_at closed now b = (true, b)
enter_at half_open now b = (true, b)

unfoldable pub enter : ℕ → Breaker → Bool × Breaker
unfolding enter_at
enter now b = enter_at b.state now b

-- `fn()` has returned.
success_at : BreakerState → Breaker → Breaker
unfolding record_state reset
success_at half_open b = reset b
success_at closed b = note closed 0 0 b
success_at open_state b = note open_state 0 0 b

unfoldable pub on_success : Breaker → Breaker
unfolding success_at
on_success b = success_at b.state b

-- `fn()` has thrown, and `now` is the second `Date.now()`.
unfoldable pub on_failure : ℕ → Breaker → Breaker
unfolding record_state
on_failure now b =
    if leb b.failure_threshold (b.failure_count + 1)
    then note open_state (b.failure_count + 1) now b
    else note b.state (b.failure_count + 1) now b

pub data CallOutcome : Type 0 where
  refused returned thrown : CallOutcome

-- A whole `call` with no other call in flight: `works` says whether `fn()` returns.
unfoldable pub call : ℕ → ℕ → Bool → Breaker → CallOutcome × Breaker
unfolding enter on_success on_failure
call start finish works b =
    let (admitted, b') = enter start b in
    if admitted
    then (if works then (returned, on_success b') else (thrown, on_failure finish b'))
    else (refused, b')
