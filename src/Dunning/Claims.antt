-- ===== src/Dunning/Claims.antt =====
-- The claims of due subscriptions: `claimSubscription` of backend/src/jobs/subscriptionCharge.worker.ts.
use stellar_tipz.Base.{◌≡◌, true, false, some, arith}
use stellar_tipz.Base.Int.{ℤ, ◌+ℤ◌, ◌≤ℤ◌, leb_ℤ, +ℤ_parts, -ℤ_parts}
use stellar_tipz.Indexer.State.{Subscription}
use stellar_tipz.Dunning.{charge_claim_ttl_ms, is_unchanged, claim_subscription, is_due}

-- Two workers that have read the same due row: once the first has claimed it, the claim of the
-- second, at any time, fails and leaves the row.
pub claims_exclude :
    (s r : Subscription) (now later : ℤ)
    → is_due now s ≡ true
    → (claim_subscription s now r).0 ≡ true
    → claim_subscription s later (claim_subscription s now r).1
      ≡ (false, (claim_subscription s now r).1)
unfolding is_due claim_subscription is_unchanged
claims_exclude s r now later due claimed = ground (arith, -ℤ_parts now charge_claim_ttl_ms)

-- A row that was due and is claimed at `now` is due again, without any other change, exactly from the
-- claim's expiry on.
claim_expires :
    (s : Subscription) (now later : ℤ)
    → is_due now s ≡ true
    → now ≤ℤ later
    → is_due later (record s { charge_attempt_started_at = some now })
      ≡ leb_ℤ (now +ℤ charge_claim_ttl_ms) later
unfolding is_due
claim_expires s now later due le =
    ground (arith, -ℤ_parts later charge_claim_ttl_ms, +ℤ_parts now charge_claim_ttl_ms)
