-- ===== src/Common/Retry/Tests.antt =====
-- Runs of the retry loop, and the theorems at concrete inputs.
use stellar_tipz.Base.{ℕ, ◌≡◌, refl, true, false, none, some, [], ◌∷◌, ltb, if◌then◌else◌}
use stellar_tipz.Base.Text.{codes}
use stellar_tipz.Common.Retry.{
  RetryOptions, Attempt, value, failure, Run, returned, threw, with_retry,
}
use stellar_tipz.Common.Retry.Loop.{IsSound, with_retry-IsSound}
use native.Mathlib.Nat.{le_refl}

abbrev options : RetryOptions
options = record {
  max_attempts = 3;
  initial_delay_ms = 100;
  max_delay_ms = 150;
  factor = 2;
  jitter = false;
  method = none;
  has_key = false;
}

-- fails twice, then returns 7
abbrev flaky : ℕ → Attempt ℕ ℕ
flaky n = if ltb n 2 then failure n else value 7

flaky_run :
    with_retry (λ x. x) options (λ e. true) flaky (λ n. false) (λ n. false)
    ≡ some (record { result = returned 7; calls = 3; waits = 150 ∷ 100 ∷ [] })
unfolding with_retry
flaky_run = refl

post_is_not_retried :
    with_retry
      (λ x. x)
      (record options { method = some (codes "post") })
      (λ e. true)
      flaky
      (λ n. false)
      (λ n. false)
    ≡ some (record { result = threw 0; calls = 1; waits = [] })
unfolding with_retry
post_is_not_retried = refl

with_retry-IsSound_example :
    (r : Run ℕ ℕ) × (with_retry (λ x. x) options (λ e. true) flaky (λ n. false) (λ n. false)
      ≡ some r)
    × IsSound options (λ e. true) flaky r
with_retry-IsSound_example =
    with_retry-IsSound options (λ e. true) flaky (λ x. x) (λ x. le_refl x) (λ n. false) (λ n. false)
