-- ===== src/Common/Breaker/Sequential.antt =====
-- Sequences of calls of backend/src/common/utils/circuitBreaker.ts, one call at a time.
use stellar_tipz.Base.{
  ℕ, ◌+◌, ◌<◌, ◌≡◌, refl, Bool, ◌&&◌, Option, List, [], ◌∷◌, leb, ltb, arith, if◌then◌else◌,
}
use stellar_tipz.Common.Breaker.{
  Breaker, MetricsEntry, closed, open_state, CallOutcome, refused, returned, thrown, new_breaker,
  call,
}

-- When a call begins and ends, and whether `fn()` returns.
pub record Timed : Type 0 where
  pub start : ℕ
  pub finish : ℕ
  pub works : Bool

-- The outcomes of the calls, the first one first, and the breaker after them.
unfoldable pub run_calls : List Timed → Breaker → List CallOutcome × Breaker
run_calls [] b = ([], b)
run_calls (c ∷ cs) b =
    let (outcome, b') = call c.start c.finish c.works b in
    let (outcomes, last) = run_calls cs b' in (outcome ∷ outcomes, last)

-- The specification keeps no state but the number of failures since the last success, and the time
-- of the last of them.
pub record Streak : Type 0 where
  pub failures : ℕ
  pub last : ℕ

abbrev no_failures : Streak
no_failures = record { failures = 0; last = 0 }

-- A call is refused from the threshold on until the reset time has passed since the last failure.
unfoldable pub streak_call : ℕ → ℕ → Timed → Streak → CallOutcome × Streak
streak_call threshold reset c s =
    if leb threshold s.failures && ltb c.start (s.last + reset)
    then (refused, s)
    else if c.works
    then (returned, no_failures)
    else (thrown, record { failures = s.failures + 1; last = c.finish })

unfoldable pub streak_calls : ℕ → ℕ → List Timed → Streak → List CallOutcome × Streak
unfolding streak_call
streak_calls threshold reset [] s = ([], s)
streak_calls threshold reset (c ∷ cs) s =
    let (outcome, s') = streak_call threshold reset c s in
    let (outcomes, last) = streak_calls threshold reset cs s' in (outcome ∷ outcomes, last)

-- A breaker between calls, seen as the specification sees it.
pub record Shows (threshold reset : ℕ) (s : Streak) (b : Breaker) : Type 0 where
  pub same_threshold : b.failure_threshold ≡ threshold
  pub same_reset : b.reset_timeout_ms ≡ reset
  pub counted : b.failure_count ≡ s.failures
  pub timed : b.last_failure_time ≡ s.last
  pub state : b.state ≡ (if leb threshold s.failures then open_state else closed)

call-Shows :
    (threshold reset : ℕ) (c : Timed) (s : Streak) (b : Breaker)
    → 0 < threshold
    → Shows threshold reset s b
    → let (outcome, b') = call c.start c.finish c.works b in
      let (expected, s') = streak_call threshold reset c s in
      (outcome ≡ expected) × Shows threshold reset s' b'
unfolding call streak_call
call-Shows threshold reset c s b h r = ground arith

run_calls-Shows :
    (threshold reset : ℕ) (cs : List Timed) (s : Streak) (b : Breaker)
    → 0 < threshold
    → Shows threshold reset s b
    → let (outcomes, b') = run_calls cs b in
      let (expected, s') = streak_calls threshold reset cs s in
      (outcomes ≡ expected) × Shows threshold reset s' b'
unfolding run_calls streak_calls
run_calls-Shows threshold reset [] s b h r = (refl, r)
run_calls-Shows threshold reset (c ∷ cs) s b h r =
    let (same, shown) = call-Shows threshold reset c s b h r in
    let (rest, end) = run_calls-Shows threshold reset cs _ _ h shown in (rw (same, rest) refl, end)

-- Any calls of a new breaker with a positive threshold, one at a time, have the outcomes of the
-- specification: a call is refused exactly if the failures since the last success have reached the
-- threshold and the reset time since the last of them has not passed. After them the breaker has
-- that count and that time, is open if the count has reached the threshold and closed if not.
pub run_calls_refine :
    (threshold reset : ℕ) (entry : Option MetricsEntry) (cs : List Timed)
    → 0 < threshold
    → let (outcomes, b) = run_calls cs (new_breaker threshold reset entry) in
      let (expected, s) = streak_calls threshold reset cs (record { failures = 0; last = 0 }) in
      (outcomes ≡ expected) × Shows threshold reset s b
unfolding new_breaker
run_calls_refine threshold reset entry cs h =
    run_calls-Shows threshold reset cs no_failures (new_breaker threshold reset entry) h
      (ground arith)
