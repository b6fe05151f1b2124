-- ===== src/Notifications.antt =====
-- Deliveries of notifications and the suppression of channels
-- (backend/src/modules/notifications/delivery.ts). Ids are numbers, new ones by `next`; a transaction
-- runs as one, and the counts of its updates are those of the rows that match.
pub mod Rows
pub mod Outcomes
pub mod Suppression
mod Tests
use stellar_tipz.Base.{
  ℕ, ◌+◌, Bool, true, false, not, ◌&&◌, ◌||◌, Option, none, some, List, [], ◌∷◌, ltb, leb, ◌==◌,
  length, find, filter, every, update_where, when_some, if◌then◌else◌,
}
use stellar_tipz.Base.Text.{String, codes}

pub data Channel : Type 0 where
  in_app email push : Channel

pub data DeliveryStatus : Type 0 where
  queued sent delivered failed bounced : DeliveryStatus

pub record Delivery : Type 0 where
  pub id : ℕ
  pub user_id : ℕ
  pub notification_id : Option ℕ
  pub channel : Channel
  pub status : DeliveryStatus
  pub reason : Option String

pub record ChannelState : Type 0 where
  pub consecutive_failures : ℕ
  pub disabled_at : Option ℕ

-- A notification of the type `notification_channel_disabled`.
pub record Notice : Type 0 where
  pub id : ℕ
  pub user_id : ℕ
  pub channel : Channel
  pub reason : String

pub record DeliveryDb : Type 0 where
  pub next : ℕ
  pub deliveries : List Delivery
  pub states : ℕ → Channel → Option ChannelState
  pub notices : List Notice

pub data DeliveryError : Type 0 where
  bad_request not_found : DeliveryError

pub data DeliveryResult : Type 0 where
  ok : Delivery → DeliveryResult
  error : DeliveryError → DeliveryResult

abbrev pub channel_number : Channel → ℕ
channel_number in_app = 0
channel_number email = 1
channel_number push = 2

abbrev pub status_number : DeliveryStatus → ℕ
status_number queued = 0
status_number sent = 1
status_number delivered = 2
status_number failed = 3
status_number bounced = 4

abbrev pub same_channel : Channel → Channel → Bool
same_channel c d = channel_number c == channel_number d

abbrev pub same_status : DeliveryStatus → DeliveryStatus → Bool
same_status s t = status_number s == status_number t

abbrev pub is_key : ℕ → Channel → ℕ → Channel → Bool
is_key user channel u c = (user == u) && same_channel channel c

abbrev pub is_some {ℓ} : {A : Type ℓ} → Option A → Bool
is_some none = false
is_some (some a) = true

-- `TRANSITIONS`
unfoldable pub transitions : DeliveryStatus → List DeliveryStatus
transitions queued = sent ∷ delivered ∷ failed ∷ bounced ∷ []
transitions sent = delivered ∷ failed ∷ bounced ∷ []
transitions delivered = bounced ∷ []
transitions failed = bounced ∷ []
transitions bounced = []

abbrev pub includes : DeliveryStatus → List DeliveryStatus → Bool
includes s [] = false
includes s (t ∷ ts) = same_status t s || includes s ts

-- White space as `trim` takes it off.
unfoldable pub is_white : ℕ → Bool
is_white c =
    (leb 9 c && leb c 13)
    || c == 32
    || c == 160
    || c == 5760
    || (leb 8192 c && leb c 8202)
    || c == 8232
    || c == 8233
    || c == 8239
    || c == 8287
    || c == 12288
    || c == 65279

-- `!reason?.trim()`
unfoldable pub lacks_reason : Option String → Bool
unfolding is_white
lacks_reason none = true
lacks_reason (some reason) = every is_white (codes reason)

abbrev pub is_failure : DeliveryStatus → Bool
is_failure failed = true
is_failure bounced = true
is_failure _ = false

unfoldable pub queue_delivery : ℕ → Channel → Option ℕ → DeliveryDb → DeliveryResult × DeliveryDb
queue_delivery user channel notification db =
    let d : Delivery = record {
      id = db.next;
      user_id = user;
      notification_id = notification;
      channel = channel;
      status = queued;
      reason = none;
    } in
    if when_some (db.states user channel) false (λ s. is_some s.disabled_at)
    then (error bad_request, db)
    else (ok d, record db { next = db.next + 1; deliveries = d ∷ db.deliveries })

-- The upsert of the state of a channel.
unfoldable pub count_outcome : Bool → Option ChannelState → ChannelState
count_outcome is_bad none = record {
  consecutive_failures = if is_bad then 1 else 0;
  disabled_at = none;
}
count_outcome is_bad (some s) = record s {
  consecutive_failures = if is_bad then s.consecutive_failures + 1 else 0;
}

abbrev pub put_state : ℕ → Channel → ChannelState → DeliveryDb → DeliveryDb
put_state user channel s db = record db {
  states = λ u c. if is_key user channel u c then some s else db.states u c;
}

-- The notification of a disabled channel with its delivery in the app.
unfoldable pub announce : ℕ → Channel → Option String → DeliveryDb → DeliveryDb
announce user channel reason db = record db {
  next = db.next + 2;
  notices =
      record {
        id = db.next;
        user_id = user;
        channel = channel;
        reason = when_some reason "Persistent delivery failures" (λ r. r);
      }
      ∷ db.notices;
  deliveries =
      record {
        id = db.next + 1;
        user_id = user;
        notification_id = some db.next;
        channel = in_app;
        status = delivered;
        reason = none;
      }
      ∷ db.deliveries;
}

-- The update of a state that is not disabled, and the notification if there was one.
unfoldable pub disable_channel : ℕ → Channel → Option String → ℕ → DeliveryDb → DeliveryDb
unfolding announce
disable_channel user channel reason now db = when_some (db.states user channel) db (λ s.
    if is_some s.disabled_at
    then db
    else announce user channel reason
        (put_state user channel (record s { disabled_at = some now }) db))

unfoldable pub record_outcome :
    ℕ → Channel → DeliveryStatus → Option String → ℕ → DeliveryDb → DeliveryDb
unfolding count_outcome disable_channel
record_outcome user channel status reason now db =
    let s = count_outcome (is_failure status) (db.states user channel) in
    let counted = put_state user channel s db in
    if not (same_channel channel in_app)
      && (same_status status bounced || leb 3 s.consecutive_failures)
    then disable_channel user channel reason now counted
    else counted

-- The transaction on a row that was found.
unfoldable pub move_delivery :
    Delivery → DeliveryStatus → Option String → ℕ → DeliveryDb → DeliveryResult × DeliveryDb
unfolding transitions record_outcome
move_delivery d status reason now db =
    let is_row : Delivery → Bool = λ x. (x.id == d.id) && same_status x.status d.status in
    let moved = record db {
      deliveries =
          update_where is_row (λ x. record x { status = status; reason = reason }) db.deliveries;
    } in
    if same_status d.status status
    then (ok d, db)
    else if not (includes status (transitions d.status))
    then (error bad_request, db)
    else if length (filter is_row db.deliveries) == 0
    then (error bad_request, db)
    else if is_failure status || same_status status delivered
    then (
      ok (record d { status = status; reason = reason }),
      record_outcome d.user_id d.channel status reason now moved,
    )
    else (ok (record d { status = status; reason = reason }), moved)

unfoldable pub find_delivery : ℕ → List Delivery → Option Delivery
find_delivery id ds = find (λ d. d.id == id) ds

unfoldable pub transition_delivery :
    ℕ → DeliveryStatus → Option String → ℕ → DeliveryDb → DeliveryResult × DeliveryDb
unfolding lacks_reason find_delivery move_delivery
transition_delivery id status reason now db =
    if is_failure status && lacks_reason reason
    then (error bad_request, db)
    else when_some (find_delivery id db.deliveries) (error not_found, db)
        (λ d. move_delivery d status reason now db)

unfoldable pub acknowledge_delivery_sent : ℕ → DeliveryDb → DeliveryDb
acknowledge_delivery_sent id db = record db {
  deliveries =
      update_where (λ d. (d.id == id) && same_status d.status queued)
        (λ d. record d { status = sent }) db.deliveries;
}

pub data Step : Type 0 where
  queue : ℕ → Channel → Option ℕ → Step
  receipt : ℕ → DeliveryStatus → Option String → Step
  acknowledge : ℕ → Step

abbrev pub empty_db : DeliveryDb
empty_db = record { next = 0; deliveries = []; states = λ u c. none; notices = [] }

unfoldable pub step : Step → ℕ → DeliveryDb → DeliveryDb
unfolding queue_delivery transition_delivery acknowledge_delivery_sent
step (queue user channel notification) now db = (queue_delivery user channel notification db).1
step (receipt id status reason) now db = (transition_delivery id status reason now db).1
step (acknowledge id) now db = acknowledge_delivery_sent id db

-- Each step with its time.
unfoldable pub steps : List (Step × ℕ) → DeliveryDb → DeliveryDb
unfolding step
steps [] db = db
steps ((s, now) ∷ ss) db = steps ss (step s now db)
