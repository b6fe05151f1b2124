-- ===== src/Subscriptions/Tests.antt =====
-- Tests of a charge on the chain, and its theorem at a concrete input.
use stellar_tipz.Base.{ℕ, ◌≡◌, refl, true, some, ltb, arith, if◌then◌else◌}
use stellar_tipz.Subscriptions.{
  success, not_found, Round, Charge, charged, thrown, confirmation_timed_out, rejected, error,
  duplicate, ConfirmationOptions, Submission, charge_subscription_on_chain,
}
use stellar_tipz.Subscriptions.Confirmed.{Made, charge_ends}

abbrev quick : ConfirmationOptions
quick = record { timeout_ms = some 10; poll_interval_ms = some 3 }

abbrev accepted : Submission
accepted = record {
  has_contract = true;
  has_keeper = true;
  account_found = true;
  simulates = true;
  send_status = duplicate;
}

abbrev found_after : ℕ → ℕ → Round
found_after n k = record { answer = if ltb k n then not_found else success; took = 1; late = 0 }

third_round : charge_subscription_on_chain 11 quick accepted (found_after 2) 100 ≡ some charged
unfolding charge_subscription_on_chain
third_round = refl

too_late :
    charge_subscription_on_chain 11 quick accepted (found_after 9) 100
    ≡ some (thrown confirmation_timed_out)
unfolding charge_subscription_on_chain
too_late = refl

not_taken :
    charge_subscription_on_chain 11 quick
      (record accepted { send_status = error })
      (found_after 0)
      100
    ≡ some (thrown rejected)
unfolding charge_subscription_on_chain
not_taken = refl

charge_ends_example :
    (r : Charge) × (charge_subscription_on_chain 11 quick accepted (found_after 2) 100 ≡ some r)
    × (r ≡ charged → Made quick accepted (found_after 2) 100)
charge_ends_example = charge_ends quick accepted (found_after 2) 100 11 (omega arith) (omega arith)
