-- ===== src/Indexer/Notify.antt =====
-- Notifications that the projections create (`createNotification` and `persistNotification` of
-- backend/src/modules/notifications/notifications.service.ts, `enqueueTipBatch` of batching.ts).
-- The payload is its amount; the token is XLM, since the projections name none.
use stellar_tipz.Base.{
  ℕ, ◌+◌, ◌*◌, ◌/◌, Bool, true, false, not, ◌&&◌, Option, none, some, ◌∷◌, if◌then◌else◌,
}
use stellar_tipz.Base.Int.{ℤ, pos, ◌+ℤ◌, ltb_ℤ}
use stellar_tipz.Indexer.State.{
  NotificationKind, tip_received, goal_reached, subscription_charged, Preference, Batch, Exec,
  ◌>>=◌, return, throw, query, write, invalid_amount, at_pair,
}

-- The end of the fixed window of `seconds` that `now` (in milliseconds) lies in.
unfoldable pub batch_due_at : ℕ → ℕ → ℕ
batch_due_at seconds now = (now / (seconds * 1000) + 1) * seconds * 1000

unfoldable pub upsert_batch : ℤ → Option Batch → Batch
upsert_batch amount none = record { count = 1; total_stroops = amount }
upsert_batch amount (some b) = record {
  count = b.count + 1;
  total_stroops = b.total_stroops +ℤ amount;
}

unfoldable pub enqueue_tip_batch : ℕ → ℤ → ℕ → ℕ → Exec (Unit {0})
unfolding batch_due_at upsert_batch
enqueue_tip_batch user amount seconds now =
    let due = batch_due_at seconds now in
    if ltb_ℤ amount (pos 0)
    then throw invalid_amount
    else write λ w. record w {
      batches = at_pair user due (upsert_batch amount (w.batches user due)) w.batches;
    }

-- `BATCHABLE`
unfoldable pub is_batchable : NotificationKind → Bool
is_batchable tip_received = true
is_batchable goal_reached = false
is_batchable subscription_charged = false

abbrev pub create : ℕ → NotificationKind → ℤ → Exec (Unit {0})
create user kind amount = write λ w. record w {
  notifications = record { user_id = user; kind = kind; amount = amount } ∷ w.notifications;
}

-- What is done under a preference row, or without one.
unfoldable pub persist_under : Option Preference → ℕ → NotificationKind → ℤ → ℕ → Exec (Unit {0})
unfolding is_batchable enqueue_tip_batch
persist_under none user kind amount now = create user kind amount
persist_under (some p) user kind amount now =
    if not (p.wants kind)
    then return tt
    else if is_batchable kind && p.batching_enabled
    then enqueue_tip_batch user amount p.window_seconds now
    else create user kind amount

unfoldable pub persist_notification : ℕ → NotificationKind → ℤ → ℕ → Exec (Unit {0})
unfolding persist_under
persist_notification user kind amount now = do
  pref ← query (λ w. w.preferences user)
  persist_under pref user kind amount now
