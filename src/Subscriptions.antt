-- ===== src/Subscriptions.antt =====
-- The charge of a subscription on the chain: `chargeSubscriptionOnChain` and
-- `confirmSubscriptionCharge` of backend/src/modules/subscriptions/subscriptions.service.ts. What the
-- network answers and how long each call takes is an argument; times are milliseconds.
pub mod Confirmed
mod Tests
use stellar_tipz.Base.{
  ℕ, zero, suc, ◌+◌, ◌-◌, Bool, true, false, Option, none, some, List, [], ◌∷◌, leb, min, when_some,
  if◌then◌else◌,
}

-- The status of a transaction, or a failed call.
pub data TransactionAnswer : Type 0 where
  success : TransactionAnswer
  failed : TransactionAnswer
  not_found : TransactionAnswer
  call_failed : TransactionAnswer

-- One round: the answer, the time that the call takes, and how much later than asked the sleep ends.
pub record Round : Type 0 where
  pub answer : TransactionAnswer
  pub took : ℕ
  pub late : ℕ

pub data ChargeError : Type 0 where
  no_contract : ChargeError
  no_keeper : ChargeError
  account_failed : ChargeError
  simulation_failed : ChargeError
  submission_failed : ChargeError
  try_again_later : ChargeError
  rejected : ChargeError
  confirmation_timed_out : ChargeError
  transaction_failed : ChargeError
  transaction_call_failed : ChargeError

pub data Charge : Type 0 where
  charged : Charge
  thrown : ChargeError → Charge

abbrev pub default_confirmation_timeout_ms : ℕ
default_confirmation_timeout_ms = 60_000

abbrev pub default_confirmation_poll_interval_ms : ℕ
default_confirmation_poll_interval_ms = 1_000

-- `SubscriptionChargeConfirmationOptions` without the clock and the sleeper.
pub record ConfirmationOptions : Type 0 where
  pub timeout_ms : Option ℕ
  pub poll_interval_ms : Option ℕ

-- `Math.min(pollIntervalMs, remainingAfterCallMs)`
unfoldable pub next_poll : ℕ → ℕ → ℕ → Round → ℕ
next_poll deadline poll_interval now r =
    now + r.took + min poll_interval (deadline - (now + r.took)) + r.late

-- The loop from the time `now` on; `none` if the fuel runs out.
unfoldable pub confirm_loop : ℕ → ℕ → ℕ → (ℕ → Round) → ℕ → ℕ → Option Charge
unfolding next_poll
confirm_loop zero deadline poll_interval rounds k now = none
confirm_loop (suc fuel) deadline poll_interval rounds k now =
    let r = rounds k in
    let rest =
      confirm_loop fuel deadline poll_interval rounds (k + 1)
        (next_poll deadline poll_interval now r) in
    if leb deadline now then some (thrown confirmation_timed_out) else elim r.answer [
      | success ↦ some charged
      | failed ↦ some (thrown transaction_failed)
      | call_failed ↦ some (thrown transaction_call_failed)
      | not_found ↦
          if leb deadline (now + r.took) then some (thrown confirmation_timed_out) else rest
    ]

unfoldable pub confirm_subscription_charge :
    ℕ → ConfirmationOptions → (ℕ → Round) → ℕ → Option Charge
unfolding confirm_loop
confirm_subscription_charge fuel options rounds now =
    confirm_loop fuel (now + when_some options.timeout_ms default_confirmation_timeout_ms (λ t. t))
      (when_some options.poll_interval_ms default_confirmation_poll_interval_ms (λ t. t)) rounds 0
      now

-- What the network says of the transaction that is sent; the last two are accepted.
pub data SendStatus : Type 0 where
  send_failed : SendStatus
  error : SendStatus
  try_again : SendStatus
  pending : SendStatus
  duplicate : SendStatus

-- The configuration and the calls before the confirmation.
pub record Submission : Type 0 where
  pub has_contract : Bool
  pub has_keeper : Bool
  pub account_found : Bool
  pub simulates : Bool
  pub send_status : SendStatus

abbrev pub after_send : SendStatus → Option Charge → Option Charge
after_send send_failed confirmation = some (thrown submission_failed)
after_send error confirmation = some (thrown rejected)
after_send try_again confirmation = some (thrown try_again_later)
after_send pending confirmation = confirmation
after_send duplicate confirmation = confirmation

unfoldable pub charge_subscription_on_chain :
    ℕ → ConfirmationOptions → Submission → (ℕ → Round) → ℕ → Option Charge
unfolding confirm_subscription_charge
charge_subscription_on_chain fuel options s rounds now =
    if s.has_contract
    then if s.has_keeper
      then if s.account_found
        then if s.simulates
          then after_send s.send_status (confirm_subscription_charge fuel options rounds now)
          else some (thrown simulation_failed)
        else some (thrown account_failed)
      else some (thrown no_keeper)
    else some (thrown no_contract)
