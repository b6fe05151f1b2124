-- ===== src/Common/Breaker/Tests.antt =====
-- Runs of the breaker, and the theorems at concrete inputs.
use stellar_tipz.Base.{ℕ, List, ◌≡◌, refl, true, false, none, [], ◌∷◌, arith}
use stellar_tipz.Common.Breaker.{
  Breaker, MetricsEntry, closed, open_state, half_open, refused, returned, thrown, new_breaker,
  enter, on_success, call,
}
use stellar_tipz.Common.Breaker.Sequential.{Timed, Shows, run_calls, streak_calls, run_calls_refine}
use stellar_tipz.Common.Breaker.Metrics.{Mirrors}
use stellar_tipz.Common.Breaker.Threshold.{fail_all, opens_at_threshold}
use stellar_tipz.Common.Breaker.Interleaved.{late_success_then_trial, late_success_disarms}

abbrev entry : MetricsEntry
entry = record { state = closed; failures = 0; opens = 0 }

abbrev fresh : Breaker
fresh = record {
  failure_threshold = 2;
  reset_timeout_ms = 30;
  state = closed;
  failure_count = 0;
  last_failure_time = 0;
  metrics = entry;
}

abbrev opened : Breaker
opened = record {
  failure_threshold = 2;
  reset_timeout_ms = 30;
  state = open_state;
  failure_count = 2;
  last_failure_time = 100;
  metrics = record { state = open_state; failures = 2; opens = 1 };
}

new_breaker_test : new_breaker 2 30 none ≡ fresh
unfolding new_breaker
new_breaker_test = refl

two_failures : fail_all ((90, 95) ∷ (96, 100) ∷ []) fresh ≡ opened
unfolding fail_all call
two_failures = refl

abbrev failing : ℕ → ℕ → Timed
failing start finish = record { start = start; finish = finish; works = false }

-- Two failures, a call that is refused, a trial that fails, and one that works.
abbrev calls : List Timed
calls =
    failing 90 95
    ∷ failing 96 100
    ∷ failing 120 121
    ∷ failing 130 140
    ∷ record { start = 170; finish = 171; works = true }
    ∷ []

calls_run : run_calls calls fresh ≡ (
  thrown ∷ thrown ∷ refused ∷ thrown ∷ returned ∷ [],
  record fresh { metrics = record { state = closed; failures = 0; opens = 2 } },
)
unfolding run_calls call
calls_run = refl

run_calls_refine_example :
    let (outcomes, b) = run_calls calls (new_breaker 2 30 none) in
    let (expected, s) = streak_calls 2 30 calls (record { failures = 0; last = 0 }) in
    (outcomes ≡ expected) × Shows 2 30 s b
run_calls_refine_example = run_calls_refine 2 30 none calls (omega arith)

opened-Mirrors : Mirrors opened
opened-Mirrors = ground arith

opens_at_threshold_example :
    ((fail_all ((90, 95) ∷ []) fresh).state ≡ closed)
    × ((call 96 100 false (fail_all ((90, 95) ∷ []) fresh)).1.state ≡ open_state)
opens_at_threshold_example = opens_at_threshold ((90, 95) ∷ []) 96 100 fresh refl (omega arith)

late_success_disarms_example :
    ((enter 101 (on_success opened)).0 ≡ true)
    × ((late_success_then_trial 101 102 opened).state ≡ half_open)
    × ((enter 103 (late_success_then_trial 101 102 opened)).0 ≡ true)
late_success_disarms_example =
    late_success_disarms 101 102 103 opened refl (omega arith) (omega arith)
