-- ===== src/Indexer/Projections/Subscriptions.antt =====
-- Subscriptions: the projections of `sub_created`, `sub_change`, `sub_exec` and `sub_cancel`.
-- One subscription for a pair of tipper and creator, with the id `sub_<tipperId>_<creatorId>`.
use stellar_tipz.Base.{when_some, ℕ, Bool, Option, none, some, List, if◌then◌else◌}
use stellar_tipz.Base.Int.{ℤ, pos, ◌*ℤ◌}
use stellar_tipz.Indexer.Value.{
  Value, undefined, Event, Interval, monthly, arg, subscription_args, as_text, to_bigint,
  to_timestamp, to_interval_days, interval_from_days, days_of, add_days,
}
use stellar_tipz.Indexer.State.{
  World, Subscription, SubscriptionStatus, subscription_charged, Exec, ◌>>=◌, ◌>>◌, return, query,
  write, catching, at_pair,
}
use stellar_tipz.Indexer.Notify.{persist_notification}
use stellar_tipz.Indexer.Projections.Users.{ensure_user_id, warn_unparseable}

-- Active terms with every pending change and every trace of dunning cleared.
unfoldable pub fresh_terms : ℤ → Interval → ℤ → Subscription
fresh_terms amount interval next = record {
  amount_stroops = amount;
  interval = interval;
  next_charge_at = next;
  status = SubscriptionStatus.active;
  pending_amount = none;
  pending_interval = none;
  change_effective_at = none;
  charge_failure_count = 0;
  dunning_started_at = none;
  next_charge_retry_at = none;
  last_failure_reason = none;
  charge_attempt_started_at = none;
}

abbrev pub or_else {ℓ} : {A : Type ℓ} → Option A → A → A
or_else (some a) d = a
or_else none d = d

abbrev pub put_subscription : ℕ → ℕ → (Option Subscription → Subscription) → World → World
put_subscription tipper creator f w = record w {
  subscriptions = at_pair tipper creator (f (w.subscriptions tipper creator)) w.subscriptions;
}

-- `updateMany` on the row of the pair.
abbrev pub change_subscription : ℕ → ℕ → (Subscription → Subscription) → World → World
change_subscription tipper creator f w = elim (w.subscriptions tipper creator) [
  | none ↦ w
  | some s ↦ record w { subscriptions = at_pair tipper creator (f s) w.subscriptions }
]

-- Both parties' ids, then the rest.
unfoldable pub with_parties : Value → Value → (ℕ → ℕ → Exec (Unit {0})) → Exec (Unit {0})
with_parties subscriber creator k = when_some (as_text subscriber) warn_unparseable (λ s.
    when_some (as_text creator) warn_unparseable
      (λ c. do tipper ← ensure_user_id s; payee ← ensure_user_id c; k tipper payee))

unfoldable pub create_subscription : List Value → ℤ → ℕ → ℕ → ℕ → Exec (Unit {0})
unfolding fresh_terms
create_subscription args amount now tipper creator =
    let days = to_interval_days (arg 3 args) in
    let next = or_else (to_timestamp (arg 4 args)) (add_days (pos now) days) in
    write
      (put_subscription tipper creator (λ old. fresh_terms amount (interval_from_days days) next))

unfoldable pub project_subscription_created : Event → Bool → ℕ → Exec (Unit {0})
unfolding create_subscription with_parties
project_subscription_created e is_new now =
    let args = subscription_args e.value in
    if is_new
    then when_some (to_bigint (arg 2 args)) warn_unparseable
        (λ amount. with_parties (arg 0 args) (arg 1 args) (create_subscription args amount now))
    else return tt

-- The pending terms, on an active subscription only.
unfoldable pub pend_change : ℤ → Interval → ℤ → Subscription → Subscription
pend_change amount interval effective s = elim s.status [
  | SubscriptionStatus.active ↦ record s {
    pending_amount = some amount;
    pending_interval = some interval;
    change_effective_at = some effective;
  }
  | _ ↦ s
]

unfoldable pub project_subscription_change : Event → Bool → Exec (Unit {0})
unfolding pend_change with_parties
project_subscription_change e is_new =
    let args = subscription_args e.value in
    if is_new
    then when_some (to_bigint (arg 2 args)) warn_unparseable (λ amount.
      when_some (to_bigint (arg 4 args)) warn_unparseable (λ effective.
        with_parties (arg 0 args) (arg 1 args) λ tipper creator. write (
          change_subscription tipper creator (
            pend_change amount (interval_from_days (to_interval_days (arg 3 args)))
              (effective *ℤ pos 1000)))))
    else return tt

-- The interval of the next period: the charged one, else the pending, else the current.
unfoldable pub next_interval : Value → Option Subscription → Interval
next_interval undefined none = monthly
next_interval undefined (some s) = or_else s.pending_interval s.interval
next_interval v previous = interval_from_days (to_interval_days v)

-- The row after a confirmed charge.
unfoldable pub charged_row : List Value → ℤ → ℕ → Option Subscription → Subscription
unfolding next_interval fresh_terms
charged_row args amount now none =
    fresh_terms amount (next_interval (arg 3 args) none)
      (or_else (to_timestamp (arg 4 args)) (add_days (pos now) (pos 30)))
charged_row args amount now (some s) =
    let interval = next_interval (arg 3 args) (some s) in
    fresh_terms amount interval
      (or_else (to_timestamp (arg 4 args)) (add_days s.next_charge_at (days_of interval)))

unfoldable pub charge_subscription : List Value → ℤ → Bool → ℕ → ℕ → ℕ → Exec (Unit {0})
unfolding charged_row
charge_subscription args amount is_new now tipper creator =
    if is_new
    then (do
      previous ← query (λ w. w.subscriptions tipper creator)
      write (put_subscription tipper creator (λ old. charged_row args amount now previous))
      catching (persist_notification creator subscription_charged amount now)
          (λ failure. return tt))
    else return tt

unfoldable pub project_subscription_charged : Event → Bool → ℕ → Exec (Unit {0})
unfolding charge_subscription with_parties
project_subscription_charged e is_new now =
    let args = subscription_args e.value in
    when_some (to_bigint (arg 2 args)) warn_unparseable (λ amount.
      with_parties (arg 0 args) (arg 1 args) (charge_subscription args amount is_new now))

unfoldable pub cancel_row : Subscription → Subscription
cancel_row s = record s {
  status = SubscriptionStatus.cancelled;
  pending_amount = none;
  pending_interval = none;
  change_effective_at = none;
  next_charge_retry_at = none;
  charge_attempt_started_at = none;
}

unfoldable pub project_subscription_cancelled : Event → Bool → Exec (Unit {0})
unfolding cancel_row with_parties
project_subscription_cancelled e is_new =
    let args = subscription_args e.value in
    if is_new
    then with_parties (arg 0 args) (arg 1 args)
        (λ tipper creator. write (change_subscription tipper creator cancel_row))
    else return tt
