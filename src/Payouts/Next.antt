-- ===== src/Payouts/Next.antt =====
-- The next run after an attempt of backend/src/modules/withdrawals/payouts.service.ts.
use stellar_tipz.Base.{
  ℕ, zero, suc, ◌+◌, ◌*◌, ◌-◌, ◌^◌, ◌≤◌, ◌<◌, ◌≡◌, ◌≢◌, refl, some, ◌∷◌, arith, Option-cases, inl,
  inr,
}
use native.Mathlib.Nat.{one-le-pow}
use stellar_tipz.Payouts.{
  Cadence, daily, weekly, monthly, manual, PayoutConfig, Payee, Calls, PayoutStatus,
  get_withdrawable_balance, record_failure, submit_balance, attempt_balance, attempt_payout,
  advance_schedule_after_success, backoff_next_run, schedule_next_run_when_paused,
}

later_by_cadence :
    (cadence : Cadence) (now : ℕ)
    → cadence ≢ monthly
    → now < advance_schedule_after_success cadence now
unfolding advance_schedule_after_success
later_by_cadence daily now h = omega arith
later_by_cadence weekly now h = omega arith
later_by_cadence monthly now h = absurd (h refl)
later_by_cadence manual now h = omega arith

pos_product : (a b : ℕ) → 0 < a → 1 ≤ b → 1 ≤ a * b
pos_product zero b h k = absurd (omega arith)
pos_product (suc a) b h k = omega arith

later_by_backoff : (failures now base : ℕ) → 0 < base → now < backoff_next_run failures now base
unfolding backoff_next_run
later_by_backoff failures now base h =
    let power = 2 ^ (failures - 1) in
    let some_wait : 1 ≤ base * power =
      pos_product base power h (one-le-pow (failures - 1) 2 (omega arith)) in
    omega (arith, some_wait)

record_failure_later :
    (config : PayoutConfig) (c : Calls) (now : ℕ) (p : Payee) (s : PayoutStatus)
    → 0 < config.backoff_base_seconds
    → (record_failure config c now p).0 ≡ some s
    → now < (record_failure config c now p).1.schedule.next_run_at
unfolding record_failure schedule_next_run_when_paused
record_failure_later config c now p s base ran =
    let wait =
      later_by_backoff (p.schedule.consecutive_failures + 1) now config.backoff_base_seconds base in
    ground (arith, wait)

balance_later :
    (config : PayoutConfig) (c : Calls) (now balance : ℕ) (p : Payee) (s : PayoutStatus)
    → 0 < config.backoff_base_seconds
    → p.schedule.cadence ≢ monthly
    → (attempt_balance config c now balance p).0 ≡ some s
    → now < (attempt_balance config c now balance p).1.schedule.next_run_at
unfolding attempt_balance submit_balance
balance_later config c now balance p s base cadence ran = ground (
  arith,
  later_by_cadence p.schedule.cadence now cadence,
  record_failure_later config c now p s base,
  record_failure_later config c now (record p { submitted = balance ∷ p.submitted }) s base,
)

-- After an attempt that ends in a success, a failure or a skip, with a positive back-off and any
-- cadence but the monthly one, the next run lies after the time of the attempt.
next_run_is_later :
    (config : PayoutConfig) (c : Calls) (now : ℕ) (p : Payee) (s : PayoutStatus)
    → 0 < config.backoff_base_seconds
    → p.schedule.cadence ≢ monthly
    → (attempt_payout config c now p).0 ≡ some s
    → now < (attempt_payout config c now p).1.schedule.next_run_at
unfolding attempt_payout
next_run_is_later config c now p s base cadence ran =
    elim (Option-cases (get_withdrawable_balance c)) [
      | inl e ↦ absurd (ground arith)
      | inr (balance, e) ↦
          let ran' : (attempt_balance config c now balance p).0 ≡ some s = ground arith in
          rw e (balance_later config c now balance p s base cadence ran')
    ]
