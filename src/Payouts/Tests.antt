-- ===== src/Payouts/Tests.antt =====
-- Runs of payouts, and the theorems at concrete inputs.
use stellar_tipz.Base.{ℕ, ◌+◌, ◌≤◌, ◌≡◌, ◌⊎◌, refl, true, false, none, some, [], ◌∷◌, arith}
use stellar_tipz.Payouts.{
  manual, PayoutConfig, PayoutScheduleInput, Payee, Calls, failed, get_withdrawable_balance,
  is_eligible, attempt_payout, next_month, days_of_civil,
}
use stellar_tipz.Payouts.Amounts.{submits_only_due, submits_again}
use stellar_tipz.Payouts.Pause.{Refused, attempt_all, pauses_at_max_attempts}

abbrev config : PayoutConfig
config = record { max_attempts = 3; backoff_base_seconds = 60; min_amount_stroops = 10 }

abbrev payee : Payee
payee = record {
  schedule = record {
    enabled = true;
    threshold_stroops = 50;
    cadence = manual;
    paused = false;
    consecutive_failures = 0;
    next_run_at = 0;
    last_run_at = none;
    last_status = none;
  };
  excluded = false;
  submitted = [];
  notices = 0;
}

abbrev works : Calls
works = record {
  received = some 100;
  withdrawn = some 30;
  accepted = true;
  saved = true;
  noted = true;
}

abbrev refuses : Calls
refuses = record {
  received = some 100;
  withdrawn = some 30;
  accepted = false;
  saved = true;
  noted = true;
}

abbrev loses : Calls
loses = record {
  received = some 100;
  withdrawn = some 30;
  accepted = true;
  saved = false;
  noted = true;
}

-- 31 January 2026 is followed by 3 March, 15 December by 15 January.
overflowing_month : next_month 20484 ≡ 20515
unfolding next_month days_of_civil
overflowing_month = refl

end_of_year : next_month 20437 ≡ 20468
unfolding next_month days_of_civil
end_of_year = refl

submits_only_due_example :
    let v = (attempt_payout config works 7 payee).1 in
    (v.submitted ≡ payee.submitted)
    ⊎ ((balance : ℕ) × (get_withdrawable_balance works ≡ some balance)
        × (v.submitted ≡ balance ∷ payee.submitted)
        × (50 ≤ balance)
        × (10 ≤ balance))
submits_only_due_example = submits_only_due config works 7 payee

submits_again_example :
    let (r, v) = attempt_payout config loses 7 payee in
    (r ≡ some failed)
    × (v.schedule.paused ≡ false)
    × ((attempt_payout config works 99 v).1.submitted ≡ 70 ∷ 70 ∷ [])
unfolding get_withdrawable_balance
submits_again_example =
    submits_again config loses works 7 99 70 payee refl refl (omega arith) (omega arith) refl refl
      refl refl refl (omega arith)

payee-Refused : Refused config refuses 70 payee
unfolding get_withdrawable_balance
payee-Refused = record {
  balance_known = refl;
  above_threshold = omega arith;
  above_minimum = omega arith;
  refused = refl;
  noted = refl;
}

pauses_at_max_attempts_example :
    let q = attempt_all config refuses (7 ∷ 8 ∷ []) payee in
    let v = (attempt_payout config refuses 9 q).1 in
    (q.schedule.paused ≡ false)
    × (v.schedule.paused ≡ true)
    × (v.notices ≡ 0 + 1)
    × ((now : ℕ) → is_eligible now v ≡ false)
pauses_at_max_attempts_example =
    pauses_at_max_attempts config refuses 70 (7 ∷ 8 ∷ []) 9 payee payee-Refused refl (omega arith)

abbrev any_input : PayoutScheduleInput
any_input = record { enabled = none; threshold_stroops = none; cadence = none }
