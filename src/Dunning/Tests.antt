-- ===== src/Dunning/Tests.antt =====
-- Runs of the charges, and the theorems at concrete inputs.
use stellar_tipz.Base.{◌≡◌, refl, true, false, none, some}
use stellar_tipz.Base.Int.{pos, ◌+ℤ◌}
use stellar_tipz.Indexer.Value.{monthly}
use stellar_tipz.Indexer.State.{Subscription, SubscriptionStatus, past_due, failed}
use stellar_tipz.Dunning.{
  ChargeFailure, classify_failure, contract_failures, claim_subscription, is_due, is_unchanged,
}
use stellar_tipz.Dunning.Claims.{claims_exclude}
use stellar_tipz.Dunning.Retries.{fail_at, dunning_ends}

abbrev row : Subscription
row = record {
  amount_stroops = pos 50;
  interval = monthly;
  next_charge_at = pos 100;
  status = SubscriptionStatus.active;
  pending_amount = none;
  pending_interval = none;
  change_effective_at = none;
  charge_failure_count = 0;
  dunning_started_at = none;
  next_charge_retry_at = none;
  last_failure_reason = none;
  charge_attempt_started_at = none;
}

insufficient : (classify_failure (some 14) false).retryable ≡ true
unfolding classify_failure contract_failures
insufficient = refl

row_due : is_due (pos 100) row ≡ true
unfolding is_due
row_due = refl

row_claimed : (claim_subscription row (pos 100) row).0 ≡ true
unfolding claim_subscription is_unchanged
row_claimed = refl

claims_exclude_example :
    claim_subscription row (pos 105) (claim_subscription row (pos 100) row).1
    ≡ (false, (claim_subscription row (pos 100) row).1)
claims_exclude_example = claims_exclude row row (pos 100) (pos 105) row_due row_claimed

abbrev trouble : ChargeFailure
trouble = record {
  code = "NETWORK_ERROR";
  reason = "network";
  retryable = true;
  contract_code = none;
}

dunning_ends_example :
    let r1 = fail_at trouble (pos 100) row in
    let r2 = fail_at trouble (pos 200) r1 in
    let r3 = fail_at trouble (pos 300) r2 in
    let r4 = fail_at trouble (pos 400) r3 in
    (r1.status ≡ past_due)
    × (r1.next_charge_retry_at ≡ some (pos 100 +ℤ pos 86_400_000))
    × (r2.status ≡ past_due)
    × (r2.next_charge_retry_at ≡ some (pos 100 +ℤ pos 259_200_000))
    × (r3.status ≡ past_due)
    × (r3.next_charge_retry_at ≡ some (pos 100 +ℤ pos 604_800_000))
    × (r4.status ≡ failed)
    × (is_due (pos 500) r4 ≡ false)
dunning_ends_example =
    dunning_ends trouble (pos 100) (pos 200) (pos 300) (pos 400) (pos 500) row refl refl refl
