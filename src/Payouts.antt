-- ===== src/Payouts.antt =====
-- Scheduled payouts (backend/src/modules/withdrawals/payouts.service.ts). Times are milliseconds
-- since 1970; the server's clock is taken to be in UTC, where a day has 86,400,000 of them.
pub mod Amounts
pub mod Pause
pub mod Next
mod Tests
use stellar_tipz.Base.{
  ℕ, ◌+◌, ◌-◌, ◌*◌, ◌/◌, ◌%◌, ◌^◌, ◌≡◌, Bool, true, false, not, ◌&&◌, ◌||◌, Option, none, some,
  List, [], ◌∷◌, map, ltb, leb, filter, when_some, if◌then◌else◌,
}

pub data Cadence : Type 0 where
  daily weekly monthly manual : Cadence

abbrev pub day_ms : ℕ
day_ms = 86_400_000

-- `setMonth(getMonth() + 1)` on a day number: with years from March on, a date is its year, its
-- month from 0 and its day, and the day number of the next month's same day is linear in the day,
-- so that a day that the month lacks runs over into the following one.
unfoldable pub days_of_civil : ℕ → ℕ → ℕ → ℕ
days_of_civil year month day =
    365 * year + year / 4 - year / 100 + year / 400 + (153 * month + 2) / 5 + day - 719_468

unfoldable pub next_month : ℕ → ℕ
unfolding days_of_civil
next_month days =
    let z = days + 719_468 in
    let in_era = z % 146_097 in
    let year_of_era = (in_era - in_era / 1460 + in_era / 36_524 - in_era / 146_096) / 365 in
    let year = year_of_era + 400 * (z / 146_097) in
    let in_year = in_era - (365 * year_of_era + year_of_era / 4 - year_of_era / 100) in
    let month = (5 * in_year + 2) / 153 in
    let day = in_year - (153 * month + 2) / 5 in
    if ltb month 11 then days_of_civil year (month + 1) day else days_of_civil (year + 1) 0 day

-- `MANUAL_COOLDOWN_MS` is one day too.
unfoldable pub advance_schedule_after_success : Cadence → ℕ → ℕ
unfolding next_month
advance_schedule_after_success daily from = from + day_ms
advance_schedule_after_success weekly from = from + 7 * day_ms
advance_schedule_after_success monthly from = next_month (from / day_ms) * day_ms + from % day_ms
advance_schedule_after_success manual from = from + day_ms

unfoldable pub backoff_next_run : ℕ → ℕ → ℕ → ℕ
backoff_next_run failures from base_seconds = from + base_seconds * 2 ^ (failures - 1) * 1000

unfoldable pub should_pause_after_failures : ℕ → ℕ → Bool
should_pause_after_failures failures max_attempts = leb max_attempts failures

unfoldable pub schedule_next_run_when_paused : ℕ → ℕ
schedule_next_run_when_paused now = now + 30 * day_ms

-- `config.payouts`
pub record PayoutConfig : Type 0 where
  pub max_attempts : ℕ
  pub backoff_base_seconds : ℕ
  pub min_amount_stroops : ℕ

pub data PayoutStatus : Type 0 where
  success failed skipped : PayoutStatus

-- A row of the schedules, with what the query asks of its user.
pub record Schedule : Type 0 where
  pub enabled : Bool
  pub threshold_stroops : ℕ
  pub cadence : Cadence
  pub paused : Bool
  pub consecutive_failures : ℕ
  pub next_run_at : ℕ
  pub last_run_at : Option ℕ
  pub last_status : Option PayoutStatus

-- A creator's schedule, whether its user is deleted, deactivated, blocked or flagged, the amounts
-- that were handed to the network, the newest first, and the number of failure notices that
-- were asked for.
pub record Payee : Type 0 where
  pub schedule : Schedule
  pub excluded : Bool
  pub submitted : List ℕ
  pub notices : ℕ

pub record PayoutScheduleInput : Type 0 where
  pub enabled : Option Bool
  pub threshold_stroops : Option ℕ
  pub cadence : Option Cadence

abbrev pub or_else {ℓ} : {A : Type ℓ} → Option A → A → A
or_else (some a) d = a
or_else none d = d

-- Enabling clears the failures and the pause.
unfoldable pub enable_again : Option Bool → ℕ → Schedule → Schedule
enable_again (some true) now s = record s {
  paused = false;
  consecutive_failures = 0;
  next_run_at = now;
}
enable_again (some false) now s = s
enable_again none now s = s

-- The row that the upsert leaves; the user exists.
unfoldable pub upsert_payout_schedule : PayoutScheduleInput → ℕ → Option Schedule → Schedule
unfolding enable_again
upsert_payout_schedule input now none = record {
  enabled = or_else input.enabled false;
  threshold_stroops = or_else input.threshold_stroops 0;
  cadence = or_else input.cadence manual;
  paused = false;
  consecutive_failures = 0;
  next_run_at = now;
  last_run_at = none;
  last_status = none;
}
upsert_payout_schedule input now (some s) = enable_again input.enabled now (record s {
  enabled = or_else input.enabled s.enabled;
  threshold_stroops = or_else input.threshold_stroops s.threshold_stroops;
  cadence = or_else input.cadence s.cadence;
})

-- The `where` of `listEligiblePayouts`.
unfoldable pub is_eligible : ℕ → Payee → Bool
is_eligible now p =
    p.schedule.enabled && not p.schedule.paused && leb p.schedule.next_run_at now && not p.excluded

unfoldable pub list_eligible_payouts : ℕ → List Payee → List Payee
unfolding is_eligible
list_eligible_payouts now ps = filter (is_eligible now) ps

-- What the calls of one attempt come to: the sums of the confirmed tips and of the withdrawals, if
-- the queries work, whether the network takes the payout, and whether the row can be updated after
-- it, and after a failure or a skip.
pub record Calls : Type 0 where
  pub received : Option ℕ
  pub withdrawn : Option ℕ
  pub accepted : Bool
  pub saved : Bool
  pub noted : Bool

unfoldable pub get_withdrawable_balance : Calls → Option ℕ
get_withdrawable_balance c = when_some c.received none (λ total.
    when_some c.withdrawn none (λ taken. some (if ltb taken total then total - taken else 0)))

-- The row after a run.
abbrev pub ran : PayoutStatus → ℕ → ℕ → ℕ → Bool → Schedule → Schedule
ran status now next failures paused s = record s {
  next_run_at = next;
  last_run_at = some now;
  last_status = some status;
  consecutive_failures = failures;
  paused = paused;
}

abbrev pub put_schedule : Schedule → Payee → Payee
put_schedule s p = record p { schedule = s }

abbrev pub skip_run : ℕ → Schedule → Schedule
skip_run now s =
    ran skipped now (advance_schedule_after_success s.cadence now) s.consecutive_failures s.paused s

abbrev pub succeed_run : ℕ → Schedule → Schedule
succeed_run now s = ran success now (advance_schedule_after_success s.cadence now) 0 s.paused s

abbrev pub fail_run : PayoutConfig → ℕ → Schedule → Schedule
fail_run config now s =
    let failures = s.consecutive_failures + 1 in
    let pause = should_pause_after_failures failures config.max_attempts in
    let next =
      if pause
      then schedule_next_run_when_paused now
      else backoff_next_run failures now config.backoff_base_seconds in
    ran failed now next failures pause s

-- The `catch`: none is an attempt that throws.
unfoldable pub record_failure : PayoutConfig → Calls → ℕ → Payee → Option PayoutStatus × Payee
unfolding should_pause_after_failures schedule_next_run_when_paused backoff_next_run
record_failure config c now p =
    let s = fail_run config now p.schedule in
    if c.noted
    then (
      some failed,
      record p { schedule = s; notices = if s.paused then p.notices + 1 else p.notices },
    )
    else (none, p)

unfoldable pub submit_balance : PayoutConfig → Calls → ℕ → ℕ → Payee → Option PayoutStatus × Payee
unfolding record_failure advance_schedule_after_success
submit_balance config c now balance p =
    if not c.accepted
    then record_failure config c now p
    else (let sent = record p { submitted = balance ∷ p.submitted } in
        if c.saved
        then (some success, put_schedule (succeed_run now p.schedule) sent)
        else record_failure config c now sent)

unfoldable pub attempt_balance : PayoutConfig → Calls → ℕ → ℕ → Payee → Option PayoutStatus × Payee
unfolding submit_balance advance_schedule_after_success
attempt_balance config c now balance p =
    if ltb balance p.schedule.threshold_stroops || ltb balance config.min_amount_stroops
    then (if c.noted then (some skipped, put_schedule (skip_run now p.schedule) p) else (none, p))
    else submit_balance config c now balance p

unfoldable pub attempt_payout : PayoutConfig → Calls → ℕ → Payee → Option PayoutStatus × Payee
unfolding attempt_balance get_withdrawable_balance
attempt_payout config c now p =
    when_some (get_withdrawable_balance c) (none, p)
      (λ balance. attempt_balance config c now balance p)

pub record Counts : Type 0 where
  pub succeeded : ℕ
  pub failures : ℕ
  pub skips : ℕ

unfoldable pub count : Option PayoutStatus → Counts → Counts
count none n = record n { failures = n.failures + 1 }
count (some success) n = record n { succeeded = n.succeeded + 1 }
count (some failed) n = record n { failures = n.failures + 1 }
count (some skipped) n = record n { skips = n.skips + 1 }

-- The loop over the schedules that the query has returned, with the calls of each attempt.
unfoldable pub process_payouts :
    PayoutConfig → ℕ → List (Payee × Calls) → Counts → Counts × List Payee
unfolding attempt_payout count
process_payouts config now [] n = (n, [])
process_payouts config now ((p, c) ∷ ps) n =
    let (r, p') = attempt_payout config c now p in
    let (n', rest) = process_payouts config now ps (count r n) in (n', p' ∷ rest)

-- The returned `processed` is the number of eligible schedules.
unfoldable pub process_due_payouts :
    PayoutConfig → ℕ → (Payee → Calls) → List Payee → Counts × List Payee
unfolding process_payouts list_eligible_payouts
process_due_payouts config now calls ps =
    process_payouts config now (map (λ p. (p, calls p)) (list_eligible_payouts now ps))
      (record { succeeded = 0; failures = 0; skips = 0 })
