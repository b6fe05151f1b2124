-- ===== src/Payouts/Amounts.antt =====
-- What an attempt of backend/src/modules/withdrawals/payouts.service.ts hands to the network.
use stellar_tipz.Base.{
  ℕ, ◌+◌, ◌≤◌, ◌<◌, ◌≡◌, ◌⊎◌, inl, inr, refl, true, false, some, ◌∷◌, arith, Option-cases,
}
use stellar_tipz.Payouts.{
  PayoutConfig, Payee, Calls, failed, get_withdrawable_balance, record_failure, submit_balance,
  attempt_balance, attempt_payout, should_pause_after_failures,
}

record_failure-submitted :
    (config : PayoutConfig) (c : Calls) (now : ℕ) (p : Payee)
    → (record_failure config c now p).1.submitted ≡ p.submitted
unfolding record_failure
record_failure-submitted config c now p = ground arith

balance_submitted :
    (config : PayoutConfig) (c : Calls) (now balance : ℕ) (p : Payee)
    → let v = (attempt_balance config c now balance p).1 in
      (v.submitted ≡ p.submitted)
      ⊎ ((v.submitted ≡ balance ∷ p.submitted)
          × (p.schedule.threshold_stroops ≤ balance)
          × (config.min_amount_stroops ≤ balance))
unfolding attempt_balance submit_balance
balance_submitted config c now balance p = ground (
  arith,
  record_failure-submitted config c now p,
  record_failure-submitted config c now (record p { submitted = balance ∷ p.submitted }),
)

-- An attempt submits nothing, or once the whole withdrawable balance, which is then at least the
-- threshold of the schedule and the configured minimum.
pub submits_only_due :
    (config : PayoutConfig) (c : Calls) (now : ℕ) (p : Payee)
    → let v = (attempt_payout config c now p).1 in
      (v.submitted ≡ p.submitted)
      ⊎ ((balance : ℕ) × (get_withdrawable_balance c ≡ some balance)
          × (v.submitted ≡ balance ∷ p.submitted)
          × (p.schedule.threshold_stroops ≤ balance)
          × (config.min_amount_stroops ≤ balance))
unfolding attempt_payout
submits_only_due config c now p = elim (Option-cases (get_withdrawable_balance c)) [
  | inl e ↦ rw e (inl refl)
  | inr (balance, e) ↦ rw e (elim (balance_submitted config c now balance p) [
    | inl same ↦ inl same
    | inr (s, t, m) ↦ inr (balance, refl, s, t, m)
  ])
]

-- A payout that the network takes, and whose success cannot be written to the schedule, is counted
-- as a failure; below the maximal number of attempts the next attempt with the same sums submits the
-- same balance again.
pub submits_again :
    (config : PayoutConfig) (c d : Calls) (now later balance : ℕ) (p : Payee)
    → get_withdrawable_balance c ≡ some balance
    → get_withdrawable_balance d ≡ some balance
    → p.schedule.threshold_stroops ≤ balance
    → config.min_amount_stroops ≤ balance
    → c.accepted ≡ true
    → c.saved ≡ false
    → c.noted ≡ true
    → d.accepted ≡ true
    → d.saved ≡ true
    → p.schedule.consecutive_failures + 1 < config.max_attempts
    → let (r, v) = attempt_payout config c now p in
      (r ≡ some failed)
      × (v.schedule.paused ≡ false)
      × ((attempt_payout config d later v).1.submitted ≡ balance ∷ balance ∷ p.submitted)
unfolding attempt_payout attempt_balance submit_balance record_failure should_pause_after_failures
submits_again config c d now later balance p e f t m a s n a' s' few = ground arith
