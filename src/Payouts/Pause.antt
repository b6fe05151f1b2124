-- ===== src/Payouts/Pause.antt =====
-- Failures, the pause, and the way out of it, in
-- backend/src/modules/withdrawals/payouts.service.ts.
use stellar_tipz.Base.{
  ℕ, ◌+◌, ◌≤◌, ◌<◌, ◌≡◌, refl, ◌∙◌, Bool, true, false, not, some, List, [], ◌∷◌, arith, length, leb,
}
use stellar_tipz.Payouts.{
  PayoutConfig, PayoutScheduleInput, Payee, Calls, upsert_payout_schedule, enable_again,
  is_eligible, get_withdrawable_balance, should_pause_after_failures, record_failure,
  submit_balance, attempt_balance, attempt_payout,
}

-- Attempts at the given times, with the same answers.
unfoldable pub attempt_all : PayoutConfig → Calls → List ℕ → Payee → Payee
unfolding attempt_payout
attempt_all config c [] p = p
attempt_all config c (now ∷ times) p = attempt_all config c times (attempt_payout config c now p).1

-- The network refuses a payout that is due.
pub record Refused (config : PayoutConfig) (c : Calls) (balance : ℕ) (p : Payee) : Type 0 where
  pub balance_known : get_withdrawable_balance c ≡ some balance
  pub above_threshold : p.schedule.threshold_stroops ≤ balance
  pub above_minimum : config.min_amount_stroops ≤ balance
  pub refused : c.accepted ≡ false
  pub noted : c.noted ≡ true

-- One refused attempt.
record Counted (config : PayoutConfig) (p q : Payee) : Type 0 where
  pub failures : q.schedule.consecutive_failures ≡ p.schedule.consecutive_failures + 1
  pub pause : q.schedule.paused ≡ leb config.max_attempts (p.schedule.consecutive_failures + 1)
  pub same_threshold : q.schedule.threshold_stroops ≡ p.schedule.threshold_stroops
  pub told : p.schedule.consecutive_failures + 1 < config.max_attempts → q.notices ≡ p.notices
  pub told_once :
      config.max_attempts ≤ p.schedule.consecutive_failures + 1 → q.notices ≡ p.notices + 1

Refused-Counted :
    (config : PayoutConfig) (c : Calls) (balance now : ℕ) (p : Payee)
    → Refused config c balance p
    → Counted config p (attempt_payout config c now p).1
unfolding attempt_payout attempt_balance submit_balance record_failure should_pause_after_failures
Refused-Counted config c balance now p h = record {
  failures =
      ground (arith, h.balance_known, h.above_threshold, h.above_minimum, h.refused, h.noted);
  pause = ground (arith, h.balance_known, h.above_threshold, h.above_minimum, h.refused, h.noted);
  same_threshold =
      ground (arith, h.balance_known, h.above_threshold, h.above_minimum, h.refused, h.noted);
  told = λ few.
      ground (arith, h.balance_known, h.above_threshold, h.above_minimum, h.refused, h.noted);
  told_once = λ many.
      ground (arith, h.balance_known, h.above_threshold, h.above_minimum, h.refused, h.noted);
}

Refused-next :
    (config : PayoutConfig) (c : Calls) (balance : ℕ) (p q : Payee)
    → Refused config c balance p
    → Counted config p q
    → Refused config c balance q
Refused-next config c balance p q h k = record {
  balance_known = h.balance_known;
  above_threshold = omega (arith, h.above_threshold, k.same_threshold);
  above_minimum = h.above_minimum;
  refused = h.refused;
  noted = h.noted;
}

-- The state below the maximal number of failures.
record Running (config : PayoutConfig) (c : Calls) (balance done : ℕ) (p q : Payee) : Type 0 where
  pub failures : q.schedule.consecutive_failures ≡ p.schedule.consecutive_failures + done
  pub runs : q.schedule.paused ≡ false
  pub quiet : q.notices ≡ p.notices
  pub still : Refused config c balance q

Refused-all :
    (config : PayoutConfig) (c : Calls) (balance : ℕ) (times : List ℕ) (p : Payee)
    → Refused config c balance p
    → p.schedule.paused ≡ false
    → p.schedule.consecutive_failures + length times < config.max_attempts
    → Running config c balance (length times) p (attempt_all config c times p)
unfolding attempt_all
Refused-all config c balance [] p h run few = record {
  failures = omega arith;
  runs = run;
  quiet = refl;
  still = h;
}
Refused-all config c balance (now ∷ times) p h run few =
    let q = (attempt_payout config c now p).1 in
    let k = Refused-Counted config c balance now p h in
    let rest =
      Refused-all config c balance times q (Refused-next config c balance p q h k)
        (k.pause ∙ ground arith) (omega (arith, k.failures)) in
    record {
      failures = omega (arith, rest.failures, k.failures);
      runs = rest.runs;
      quiet = rest.quiet ∙ k.told (omega arith);
      still = rest.still;
    }

-- A payout that is due and that the network refuses at every attempt: the schedule runs on through
-- the attempts below the maximal number, the one that reaches it pauses the schedule and notifies the
-- creator once, and from then on it is not eligible at any time.
pub pauses_at_max_attempts :
    (config : PayoutConfig) (c : Calls) (balance : ℕ) (times : List ℕ) (last : ℕ) (p : Payee)
    → Refused config c balance p
    → p.schedule.paused ≡ false
    → p.schedule.consecutive_failures + length times + 1 ≡ config.max_attempts
    → let q = attempt_all config c times p in
      let v = (attempt_payout config c last q).1 in
      (q.schedule.paused ≡ false)
      × (v.schedule.paused ≡ true)
      × (v.notices ≡ p.notices + 1)
      × ((now : ℕ) → is_eligible now v ≡ false)
unfolding is_eligible
pauses_at_max_attempts config c balance times last p h run e =
    let before = Refused-all config c balance times p h run (omega arith) in
    let q = attempt_all config c times p in
    let k = Refused-Counted config c balance last q before.still in
    let stop : (attempt_payout config c last q).1.schedule.paused ≡ true =
      k.pause ∙ ground (arith, before.failures) in
    (
      before.runs,
      stop,
      k.told_once (omega (arith, before.failures)) ∙ omega (arith, before.quiet),
      λ now. ground (arith, stop),
    )

-- The creator's schedule with the switch set at a time, and maybe other settings.
abbrev pub switched : Bool → PayoutScheduleInput → ℕ → Payee → Payee
switched on input now p = record p {
  schedule = upsert_payout_schedule (record input { enabled = some on }) now (some p.schedule);
}

-- Enabling a schedule, paused or not, makes it eligible at once, unless its user is excluded, and an
-- input that disables it makes it eligible at no time.
enabling_decides :
    (input : PayoutScheduleInput) (now t : ℕ) (p : Payee)
    → (is_eligible now (switched true input now p) ≡ not p.excluded)
      × (is_eligible t (switched false input now p) ≡ false)
unfolding upsert_payout_schedule enable_again is_eligible
enabling_decides input now t p = (ground arith, ground arith)
