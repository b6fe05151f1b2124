-- ===== src/Withdrawals/Tests.antt =====
-- Tests of withdrawals, and their theorems at concrete inputs.
use stellar_tipz.Base.{ℕ, ◌+◌, ◌-◌, ◌*◌, ◌≤◌, ◌<◌, ◌≡◌, refl, true, List, [], ◌∷◌, arith}
use stellar_tipz.Base.Int.{pos, ◌-ℤ◌}
use stellar_tipz.Withdrawals.{
  WithdrawalDb, WithdrawalFee, Account, refused, insufficient_balance, taken, find_account,
  find_withdrawal, withdrawable_balance, calculate_withdrawal_fee, check_submission,
  submit_withdrawal, after_check, total_withdrawn, total_received,
}
use stellar_tipz.Withdrawals.Balance.{
  Event, submission, tip, Covered, serve_events, serve_events-Covered,
}
use stellar_tipz.Withdrawals.Fees.{fee_of_sum}
use stellar_tipz.Withdrawals.Race.{two_submissions_overdraw}

abbrev user : Account
user = record { id = 4; stellar_address = 44 }

abbrev start : WithdrawalDb
start = record {
  users = user ∷ [];
  tips = record { to_address = 44; amount_stroops = 1000; is_confirmed = true } ∷ [];
  withdrawals = [];
  next_id = 1;
}

too_much : (submit_withdrawal 200 4 (pos 1001) (taken 9) start).1 ≡ refused insufficient_balance
unfolding submit_withdrawal
too_much = refl

abbrev events : List Event
events =
    submission 4 (pos 700) (taken 9)
    ∷ submission 4 (pos 700) (taken 10)
    ∷ tip (record { to_address = 44; amount_stroops = 500; is_confirmed = true })
    ∷ submission 4 (pos 800) (taken 11)
    ∷ []

start-Covered : Covered start
unfolding total_withdrawn
start-Covered = λ id u e. omega arith

serve_events-Covered_example : Covered (serve_events 200 events start)
serve_events-Covered_example = serve_events-Covered 200 events start start-Covered

abbrev fee_of : ℕ → ℕ → WithdrawalFee
fee_of n fee = record { fee = fee; net_amount = pos n -ℤ pos fee }

fee_of_sum_example :
    (3 * 10000 ≤ (75 + 99) * 200)
    × ((75 + 99) * 200 < (3 + 1) * 10000)
    × ((fee_of 174 3).net_amount ≡ pos (75 + 99 - 3))
    × (3 ≤ 75 + 99)
    × (1 + 1 ≤ 3)
    × (3 ≤ 1 + 1 + 1)
unfolding calculate_withdrawal_fee
fee_of_sum_example =
    fee_of_sum 75 99 200 (fee_of 75 1) (fee_of 99 1) (fee_of 174 3) (omega arith) refl refl refl

two_submissions_overdraw_example :
    let first = check_submission 200 4 (pos 700) start in
    let second = check_submission 200 4 (pos 600) start in
    let db' = (after_check second (taken 8) (after_check first (taken 7) start).0).0 in
    (total_withdrawn 4 db'.withdrawals ≡ 600 + (700 + total_withdrawn 4 start.withdrawals))
    × (total_received 44 db'.tips < total_withdrawn 4 db'.withdrawals)
unfolding find_account withdrawable_balance find_withdrawal
two_submissions_overdraw_example =
    two_submissions_overdraw 200 4 700 600 7 8 user start refl (omega arith) (omega arith)
      (omega arith) (omega arith) (omega arith) refl refl (omega arith)
