-- ===== src/Dunning/Retries.antt =====
-- Failed charges in a row: `persistFailure` and `getNextDunningRetryAt` of
-- backend/src/jobs/subscriptionCharge.worker.ts.
use stellar_tipz.Base.{◌+◌, ◌≡◌, true, false, Option, none, some, arith, if◌then◌else◌}
use stellar_tipz.Base.Int.{ℤ, pos, ◌+ℤ◌}
use stellar_tipz.Indexer.State.{Subscription, past_due, failed}
use stellar_tipz.Dunning.{
  ChargeFailure, refused, is_none, or_else, is_unchanged, is_due, retry_day,
  get_next_dunning_retry_at, claim_subscription, persist_failure, process_subscription,
}

-- A failed charge of the row with no other worker in between.
abbrev pub fail_at : ChargeFailure → ℤ → Subscription → Subscription
fail_at failure now r = (process_subscription r now (refused failure) r).1

unchanged_self : (r : Subscription) → is_unchanged r r ≡ true
unfolding is_unchanged
unchanged_self r = ground arith

-- The row after a failure: one more counted, the start of the dunning kept, the retry at `next`.
record FailedOnce (failure : ChargeFailure) (now : ℤ) (r v : Subscription) (next : Option ℤ)
    : Type 0 where
  pub status : v.status ≡ (if is_none next then failed else past_due)
  pub count : v.charge_failure_count ≡ r.charge_failure_count + 1
  pub started : v.dunning_started_at ≡ some (or_else r.dunning_started_at now)
  pub retry : v.next_charge_retry_at ≡ next

fail-FailedOnce :
    (failure : ChargeFailure) (now : ℤ) (r : Subscription)
    → failure.retryable ≡ true
    → FailedOnce failure now r
        (fail_at failure now r)
        (get_next_dunning_retry_at (or_else r.dunning_started_at now) (r.charge_failure_count + 1))
unfolding process_subscription claim_subscription persist_failure
fail-FailedOnce failure now r again = record {
  status = ground (arith, unchanged_self r);
  count = ground (arith, unchanged_self r);
  started = ground (arith, unchanged_self r);
  retry = ground (arith, unchanged_self r);
}

-- The three retries and the end, from the facts of each failure.
dunning_of_steps :
    (failure : ChargeFailure) (t1 t2 t3 t4 u : ℤ) (r r1 r2 r3 r4 : Subscription)
    → r.charge_failure_count ≡ 0
    → r.dunning_started_at ≡ none
    → FailedOnce failure t1 r r1
        (get_next_dunning_retry_at (or_else r.dunning_started_at t1) (r.charge_failure_count + 1))
    → FailedOnce failure t2 r1 r2
        (get_next_dunning_retry_at (or_else r1.dunning_started_at t2) (r1.charge_failure_count + 1))
    → FailedOnce failure t3 r2 r3
        (get_next_dunning_retry_at (or_else r2.dunning_started_at t3) (r2.charge_failure_count + 1))
    → FailedOnce failure t4 r3 r4
        (get_next_dunning_retry_at (or_else r3.dunning_started_at t4) (r3.charge_failure_count + 1))
    → (r1.status ≡ past_due)
      × (r1.next_charge_retry_at ≡ some (t1 +ℤ pos 86_400_000))
      × (r2.status ≡ past_due)
      × (r2.next_charge_retry_at ≡ some (t1 +ℤ pos 259_200_000))
      × (r3.status ≡ past_due)
      × (r3.next_charge_retry_at ≡ some (t1 +ℤ pos 604_800_000))
      × (r4.status ≡ failed)
      × (is_due u r4 ≡ false)
unfolding get_next_dunning_retry_at retry_day is_due
dunning_of_steps failure t1 t2 t3 t4 u r r1 r2 r3 r4 zero_count fresh a b c d =
    let n1 : r1.charge_failure_count ≡ 1 = omega (arith, a.count, zero_count) in
    let n2 : r2.charge_failure_count ≡ 2 = omega (arith, b.count, n1) in
    let n3 : r3.charge_failure_count ≡ 3 = omega (arith, c.count, n2) in
    let s1 : r1.dunning_started_at ≡ some t1 = ground (arith, a.started, fresh) in
    let s2 : r2.dunning_started_at ≡ some t1 = ground (arith, b.started, s1) in
    let s3 : r3.dunning_started_at ≡ some t1 = ground (arith, c.started, s2) in
    let gone : r4.status ≡ failed = ground (arith, d.status, n3, s3) in
    (
      ground (arith, a.status, zero_count, fresh),
      ground (arith, a.retry, zero_count, fresh),
      ground (arith, b.status, n1, s1),
      ground (arith, b.retry, n1, s1),
      ground (arith, c.status, n2, s2),
      ground (arith, c.retry, n2, s2),
      gone,
      ground (arith, gone),
    )

-- Charges of a subscription with no failure behind it, all of which fail in a way that may be
-- retried: it is past due with a retry 1, 3 and 7 days after the first failure, whatever the times of
-- the later ones, and the fourth failure is final: the subscription has failed and is due at no time.
pub dunning_ends :
    (failure : ChargeFailure) (t1 t2 t3 t4 u : ℤ) (r : Subscription)
    → failure.retryable ≡ true
    → r.charge_failure_count ≡ 0
    → r.dunning_started_at ≡ none
    → let r1 = fail_at failure t1 r in
      let r2 = fail_at failure t2 r1 in
      let r3 = fail_at failure t3 r2 in
      let r4 = fail_at failure t4 r3 in
      (r1.status ≡ past_due)
      × (r1.next_charge_retry_at ≡ some (t1 +ℤ pos 86_400_000))
      × (r2.status ≡ past_due)
      × (r2.next_charge_retry_at ≡ some (t1 +ℤ pos 259_200_000))
      × (r3.status ≡ past_due)
      × (r3.next_charge_retry_at ≡ some (t1 +ℤ pos 604_800_000))
      × (r4.status ≡ failed)
      × (is_due u r4 ≡ false)
dunning_ends failure t1 t2 t3 t4 u r again zero_count fresh =
    let r1 = fail_at failure t1 r in
    let r2 = fail_at failure t2 r1 in
    let r3 = fail_at failure t3 r2 in
    dunning_of_steps failure t1 t2 t3 t4 u r r1 r2 r3 (fail_at failure t4 r3) zero_count fresh
      (fail-FailedOnce failure t1 r again) (fail-FailedOnce failure t2 r1 again)
      (fail-FailedOnce failure t3 r2 again) (fail-FailedOnce failure t4 r3 again)
