-- ===== src/Dunning.antt =====
-- Charges of due subscriptions and the retries after failures
-- (backend/src/jobs/subscriptionCharge.worker.ts, subscriptionCharge.failure.ts), on the row of one
-- subscription, which `Indexer.State` declares. Times are milliseconds.
pub mod Claims
pub mod Retries
mod Tests
use stellar_tipz.Base.{
  ℕ, zero, suc, ◌+◌, ◌-◌, ◌≡◌, Bool, true, false, not, ◌&&◌, ◌||◌, Option, none, some, ◌==◌,
  when_some, if◌then◌else◌,
}
use stellar_tipz.Base.Int.{ℤ, pos, ◌+ℤ◌, ◌-ℤ◌, leb_ℤ, eqb_ℤ}
use stellar_tipz.Base.Text.{String}
use stellar_tipz.Indexer.State.{
  Subscription, SubscriptionStatus, active, paused, cancelled, expired, past_due, failed,
}

abbrev pub day_ms : ℤ
day_ms = pos 86_400_000

abbrev pub charge_claim_ttl_ms : ℤ
charge_claim_ttl_ms = pos 900_000

pub record ChargeFailure : Type 0 where
  pub code : String
  pub reason : String
  pub retryable : Bool
  pub contract_code : Option ℕ

abbrev pub contract_failure : String → String → Bool → ℕ → Option ChargeFailure
contract_failure code reason retryable n =
    some (record { code = code; reason = reason; retryable = retryable; contract_code = some n })

-- `CONTRACT_FAILURES`
unfoldable pub contract_failures : ℕ → Option ChargeFailure
contract_failures n =
    if n == 3
    then contract_failure "AUTHORIZATION_REVOKED"
        "The subscription authorization is no longer valid." false n
    else if n == 7
    then contract_failure "CONTRACT_PAUSED" "Subscription charges are temporarily paused." true n
    else if n == 13
    then contract_failure "INVALID_AMOUNT" "The subscription charge amount is invalid." false n
    else if n == 14
    then contract_failure "INSUFFICIENT_BALANCE"
        "There is not enough balance for this subscription charge." true n
    else if n == 17
    then contract_failure "SUBSCRIPTION_NOT_FOUND"
        "The subscription authorization no longer exists." false n
    else if n == 18
    then contract_failure "PROFILE_DEACTIVATED" "The creator profile is deactivated." false n
    else if n == 24
    then contract_failure "INVALID_SUBSCRIPTION_PARTIES" "The subscription parties are invalid."
        false n
    else if n == 27
    then contract_failure "RATE_LIMITED" "The subscription charge was temporarily rate limited."
        true n
    else if n == 28
    then contract_failure "BELOW_MINIMUM" "The subscription amount is below the allowed minimum."
        false n
    else if n == 29
    then contract_failure "BELOW_CREATOR_MINIMUM"
        "The subscription amount is below the creator minimum." false n
    else if n == 31
    then contract_failure "INVALID_SUBSCRIPTION" "The subscription configuration is invalid." false
        n
    else if n == 32
    then contract_failure "TOKEN_NOT_ACCEPTED" "The subscription token is not accepted." false n
    else none

-- The classification, given the contract's code that was extracted from the error and whether its
-- text names a network failure.
unfoldable pub classify_failure : Option ℕ → Bool → ChargeFailure
unfolding contract_failures
classify_failure (some n) network =
    when_some (contract_failures n)
      (record {
        code = "UNKNOWN_CONTRACT_ERROR";
        reason = "The subscription charge could not be completed.";
        retryable = true;
        contract_code = some n;
      })
      (λ known. known)
classify_failure none network = record {
  code = if network then "NETWORK_ERROR" else "TEMPORARY_CHARGE_ERROR";
  reason =
      if network
      then "A temporary network error prevented the subscription charge."
      else "The subscription charge could not be completed and will be retried.";
  retryable = true;
  contract_code = none;
}

-- `DUNNING_RETRY_DAYS[failureCount - 1]`
unfoldable pub retry_day : ℕ → Option ℤ
retry_day n =
    if n == 1
    then some (pos 86_400_000)
    else if n == 2
    then some (pos 259_200_000)
    else if n == 3
    then some (pos 604_800_000)
    else none

unfoldable pub get_next_dunning_retry_at : ℤ → ℕ → Option ℤ
unfolding retry_day
get_next_dunning_retry_at started_at failure_count =
    when_some (retry_day failure_count) none (λ wait. some (started_at +ℤ wait))

-- Equality of columns; `null` is equal to `null` in Prisma's filters.
abbrev pub same_time : Option ℤ → Option ℤ → Bool
same_time none none = true
same_time none (some b) = false
same_time (some a) none = false
same_time (some a) (some b) = eqb_ℤ a b

abbrev pub status_number : SubscriptionStatus → ℕ
status_number active = 0
status_number paused = 1
status_number cancelled = 2
status_number expired = 3
status_number past_due = 4
status_number failed = 5

abbrev pub same_status : SubscriptionStatus → SubscriptionStatus → Bool
same_status a b = status_number a == status_number b

-- The row `s` as it was read, and the row `r` as it is.
unfoldable pub is_unchanged : Subscription → Subscription → Bool
is_unchanged s r =
    same_status s.status r.status
    && s.charge_failure_count == r.charge_failure_count
    && same_time s.charge_attempt_started_at r.charge_attempt_started_at
    && (if same_status s.status active
        then eqb_ℤ s.next_charge_at r.next_charge_at
        else same_time s.next_charge_retry_at r.next_charge_retry_at)

unfoldable pub claim_subscription : Subscription → ℤ → Subscription → Bool × Subscription
unfolding is_unchanged
claim_subscription s now r =
    if is_unchanged s r
    then (true, record r { charge_attempt_started_at = some now })
    else (false, r)

abbrev pub or_else {ℓ} : {A : Type ℓ} → Option A → A → A
or_else (some a) d = a
or_else none d = d

abbrev pub is_none {ℓ} : {A : Type ℓ} → Option A → Bool
is_none none = true
is_none (some a) = false

-- What `persistFailure` returns.
pub record Persisted : Type 0 where
  pub persisted : Bool
  pub failure_count : ℕ
  pub next_retry_at : Option ℤ
  pub terminal : Bool

unfoldable pub persist_failure :
    Subscription → ℤ → ChargeFailure → Subscription → Persisted × Subscription
unfolding get_next_dunning_retry_at
persist_failure s now failure r =
    let failure_count = s.charge_failure_count + 1 in
    let started = or_else s.dunning_started_at now in
    let next =
      if failure.retryable then get_next_dunning_retry_at started failure_count else none in
    let terminal = not failure.retryable || is_none next in
    let hit = same_status s.status r.status && same_time (some now) r.charge_attempt_started_at in
    (
      record {
        persisted = hit;
        failure_count = failure_count;
        next_retry_at = next;
        terminal = terminal;
      },
      if hit
          then record r {
            status = if terminal then failed else past_due;
            charge_failure_count = failure_count;
            dunning_started_at = some started;
            next_charge_retry_at = next;
            last_failure_reason = some failure.reason;
            charge_attempt_started_at = none;
          }
          else r,
    )

abbrev pub is_before : Option ℤ → ℤ → Bool
is_before none now = false
is_before (some t) now = leb_ℤ t now

-- The `where` of the query; a row is never soft-deleted in the model.
unfoldable pub is_due : ℤ → Subscription → Bool
is_due now s =
    (same_status s.status active && leb_ℤ s.next_charge_at now
      || same_status s.status past_due && is_before s.next_charge_retry_at now)
    && (is_none s.charge_attempt_started_at
        || is_before s.charge_attempt_started_at (now -ℤ charge_claim_ttl_ms))

-- The result of a charge on the chain.
pub data Charge : Type 0 where
  charged : Charge
  refused : ChargeFailure → Charge

-- One subscription of the loop, read as `s`: whether it is charged, and the row afterwards. The
-- claim of a charge that succeeds stays until the event is projected.
unfoldable pub process_subscription : Subscription → ℤ → Charge → Subscription → Bool × Subscription
unfolding claim_subscription persist_failure
process_subscription s now charged r = claim_subscription s now r
process_subscription s now (refused failure) r =
    let (claimed, r') = claim_subscription s now r in
    (false, if claimed then (persist_failure s now failure r').1 else r')
