-- ===== src/Notifications/Rows.antt =====
-- The rows of backend/src/modules/notifications/delivery.ts: deliveries by their ids, and what the
-- outcome of a delivery changes of a channel.
use stellar_tipz.Base.{
  ℕ, ◌+◌, ◌≤◌, ◌<◌, ◌≡◌, refl, sym, ap, ◌∙◌, inl, inr, Bool, true, false, not, ◌&&◌, ◌||◌, Option,
  none, some, List, [], ◌∷◌, arith, All, All_map, leb, ◌==◌, find_hit, find_miss, update_where,
  Bool-cases, if◌then◌else◌,
}
use stellar_tipz.Base.Text.{String}
use stellar_tipz.Notifications.{
  Channel, in_app, email, push, DeliveryStatus, bounced, delivered, Delivery, ChannelState, Notice,
  DeliveryDb, same_channel, same_status, is_key, is_some, is_failure, count_outcome, put_state,
  announce, disable_channel, record_outcome, find_delivery,
}

-- The newest delivery is first, and ids are below `bound`.
unfoldable pub Below : ℕ → List Delivery → Type 0
Below bound [] = Unit
Below bound (d ∷ ds) = (d.id < bound) × Below d.id ds

pub Below-raise : (n m : ℕ) (ds : List Delivery) → n ≤ m → Below n ds → Below m ds
unfolding Below
Below-raise n m [] le b = tt
Below-raise n m (d ∷ ds) le (lt, b) = (omega arith, b)

Below-All : (n : ℕ) (ds : List Delivery) → Below n ds → All (λ d. d.id < n) ds
unfolding Below
Below-All n [] b = tt
Below-All n (d ∷ ds) (lt, b) = (lt, All_map (λ x l. omega arith) ds (Below-All d.id ds b))

pub Below-update :
    (test : Delivery → Bool) (change : Delivery → Delivery) (n : ℕ) (ds : List Delivery)
    → ((d : Delivery) → (change d).id ≡ d.id)
    → Below n ds
    → Below n (update_where test change ds)
unfolding Below
Below-update test change n [] same b = tt
Below-update test change n (d ∷ ds) same (lt, b) = elim (Bool-cases (test d)) [
  | inl h ↦ rw (h, same d) (lt, Below-update test change d.id ds same b)
  | inr h ↦ rw h (lt, Below-update test change d.id ds same b)
]

-- The row that is found is the only one with its id.
pub found_alone :
    (n id : ℕ) (d : Delivery) (ds : List Delivery)
    → Below n ds
    → find_delivery id ds ≡ some d
    → All (λ x. x.id ≡ d.id → x ≡ d) ds × (d.id ≡ id)
unfolding Below find_delivery
found_alone n id d [] b e = absurd (ground arith)
found_alone n id d (x ∷ xs) (lt, b) e = elim (Bool-cases (x.id == id)) [
  | inl p ↦
      let same : x ≡ d = find_hit (λ y. y.id == id) x d xs p e in
      let named : x.id ≡ id = ground arith in
      let ids : x.id ≡ d.id = ap (λ (y : Delivery). y.id) same in
      let alone =
        All_map {Q = λ (y : Delivery). y.id ≡ d.id → y ≡ d} (λ y l i. absurd (omega arith)) xs
          (Below-All x.id xs b) in
      ((λ _. same, alone), sym ids ∙ named)
  | inr p ↦
      let (alone, named) =
        found_alone x.id id d xs b (sym (find_miss (λ y. y.id == id) x xs p) ∙ e) in
      ((λ i. absurd (ground arith), alone), named)
]

abbrev pub failures : Option ChannelState → ℕ
failures none = 0
failures (some s) = s.consecutive_failures

abbrev pub is_off : Option ChannelState → Bool
is_off none = false
is_off (some s) = is_some s.disabled_at

-- How many notices are there of the channel?
unfoldable pub count_notices : ℕ → Channel → List Notice → ℕ
count_notices u c [] = 0
count_notices u c (n ∷ ns) =
    (if is_key n.user_id n.channel u c then 1 else 0) + count_notices u c ns

key_refl : (u : ℕ) (c : Channel) → is_key u c u c ≡ true
key_refl u in_app = ground arith
key_refl u email = ground arith
key_refl u push = ground arith

pub key_same :
    (user u : ℕ) (channel c : Channel) → is_key user channel u c ≡ true → (user ≡ u) × (channel ≡ c)
key_same user u channel c h = ground arith

-- The outcome once it is known whether the channel is to be closed, and whether it is closed already.
abbrev settled :
    ℕ → Channel → ChannelState → Option String → ℕ → Bool → Bool → DeliveryDb → DeliveryDb
settled user channel s reason now true false db =
    announce user channel reason
      (put_state user channel (record s { disabled_at = some now }) (put_state user channel s db))
settled user channel s reason now _ _ db = put_state user channel s db

abbrev outcome_state : ℕ → Channel → DeliveryStatus → DeliveryDb → ChannelState
outcome_state user channel status db = count_outcome (is_failure status) (db.states user channel)

abbrev pub closes : Channel → DeliveryStatus → ℕ → Bool
closes channel status failed =
    not (same_channel channel in_app) && (same_status status bounced || leb 3 failed)

record_outcome-settled :
    (u : ℕ) (c : Channel) (status : DeliveryStatus) (reason : Option String) (now : ℕ)
    (db : DeliveryDb)
    → let s = outcome_state u c status db in
      record_outcome u c status reason now db
      ≡ settled u c s reason now (closes c status s.consecutive_failures) (is_some s.disabled_at) db
unfolding record_outcome disable_channel
record_outcome-settled u c status reason now db =
    let s = outcome_state u c status db in
    elim (Bool-cases (closes c status s.consecutive_failures)) [
      | inr p ↦ rw p refl
      | inl p ↦
          rw (p, key_refl u c)
            (elim (Bool-cases (is_some s.disabled_at)) [ inl q ↦ rw q refl | inr q ↦ rw q refl ])
    ]

outcome_failures :
    (is_bad : Bool) (o : Option ChannelState)
    → (count_outcome is_bad o).consecutive_failures ≡ (if is_bad then failures o + 1 else 0)
unfolding count_outcome
outcome_failures is_bad none = ground arith
outcome_failures is_bad (some s) = refl

outcome_off :
    (is_bad : Bool) (o : Option ChannelState)
    → is_some (count_outcome is_bad o).disabled_at ≡ is_off o
unfolding count_outcome
outcome_off is_bad none = refl
outcome_off is_bad (some s) = refl

-- The state and the notices of the channel after an outcome.
record Closes (u : ℕ) (c : Channel) (failed : ℕ) (test off : Bool) (db db' : DeliveryDb)
    : Type 0 where
  streak : failures (db'.states u c) ≡ failed
  closed : is_off (db'.states u c) ≡ off || test
  notices :
      count_notices u c db'.notices
      ≡ count_notices u c db.notices + (if test && not off then 1 else 0)

settled-Closes :
    (u : ℕ) (c : Channel) (s : ChannelState) (reason : Option String) (now : ℕ) (test off : Bool)
    (db : DeliveryDb)
    → is_some s.disabled_at ≡ off
    → Closes u c s.consecutive_failures test off db (settled u c s reason now test off db)
unfolding announce count_notices
settled-Closes u c s reason now true true db e = record {
  streak = rw (key_refl u c) refl;
  closed = rw (key_refl u c) e;
  notices = omega arith;
}
settled-Closes u c s reason now true false db e = record {
  streak = rw (key_refl u c) refl;
  closed = rw (key_refl u c) refl;
  notices = rw (key_refl u c) (omega arith);
}
settled-Closes u c s reason now false true db e = record {
  streak = rw (key_refl u c) refl;
  closed = rw (key_refl u c) e;
  notices = omega arith;
}
settled-Closes u c s reason now false false db e = record {
  streak = rw (key_refl u c) refl;
  closed = rw (key_refl u c) e;
  notices = omega arith;
}

-- What an outcome makes of its channel.
pub record Counted (u : ℕ) (c : Channel) (status : DeliveryStatus) (db db' : DeliveryDb)
    : Type 0 where
  pub closed :
      is_off (db'.states u c)
      ≡ is_off (db.states u c) || closes c status (failures (db'.states u c))
  pub notices :
      count_notices u c db'.notices
      ≡ count_notices u c db.notices
        + (if closes c status (failures (db'.states u c)) && not (is_off (db.states u c))
            then 1
            else 0)

pub record_outcome-Counted :
    (u : ℕ) (c : Channel) (status : DeliveryStatus) (reason : Option String) (now : ℕ)
    (db : DeliveryDb)
    → Counted u c status db (record_outcome u c status reason now db)
record_outcome-Counted u c status reason now db =
    let s = outcome_state u c status db in
    let off = outcome_off (is_failure status) (db.states u c) in
    let k =
      settled-Closes u c s reason now (closes c status s.consecutive_failures)
        (is_some s.disabled_at) db refl in
    rw (record_outcome-settled u c status reason now db) (record {
      closed = k.closed ∙ rw (k.streak, off) refl;
      notices = k.notices ∙ rw (k.streak, off) refl;
    })

-- Other channels keep their state and their notices.
settled-other :
    (user u : ℕ) (channel c : Channel) (s : ChannelState) (reason : Option String) (now : ℕ)
    (test off : Bool) (db : DeliveryDb)
    → is_key user channel u c ≡ false
    → let db' = settled user channel s reason now test off db in
      (db'.states u c ≡ db.states u c)
      × (count_notices u c db'.notices ≡ count_notices u c db.notices)
unfolding announce count_notices
settled-other user u channel c s reason now true true db other = rw other (refl, refl)
settled-other user u channel c s reason now true false db other = rw other (refl, omega arith)
settled-other user u channel c s reason now false true db other = rw other (refl, refl)
settled-other user u channel c s reason now false false db other = rw other (refl, refl)

pub record_outcome-other :
    (user u : ℕ) (channel c : Channel) (status : DeliveryStatus) (reason : Option String) (now : ℕ)
    (db : DeliveryDb)
    → is_key user channel u c ≡ false
    → let db' = record_outcome user channel status reason now db in
      (db'.states u c ≡ db.states u c)
      × (count_notices u c db'.notices ≡ count_notices u c db.notices)
record_outcome-other user u channel c status reason now db other =
    rw (record_outcome-settled user channel status reason now db) (
      settled-other user u channel c (outcome_state user channel status db) reason now _ _ db other)

-- The rows stay, but for a new one that is delivered in the app.
settled-rows :
    (user : ℕ) (channel : Channel) (s : ChannelState) (reason : Option String) (now : ℕ)
    (test off : Bool) (db : DeliveryDb) (P : ℕ → List Delivery → Type 0)
    → P db.next db.deliveries
    → ((d : Delivery)
        → d.id ≡ db.next + 1
        → d.status ≡ delivered
        → P (db.next + 2) (d ∷ db.deliveries))
    → let db' = settled user channel s reason now test off db in P db'.next db'.deliveries
unfolding announce
settled-rows user channel s reason now true true db P h new = h
settled-rows user channel s reason now true false db P h new = new _ refl refl
settled-rows user channel s reason now false true db P h new = h
settled-rows user channel s reason now false false db P h new = h

pub record_outcome-rows :
    (user : ℕ) (channel : Channel) (status : DeliveryStatus) (reason : Option String) (now : ℕ)
    (db : DeliveryDb) (P : ℕ → List Delivery → Type 0)
    → P db.next db.deliveries
    → ((d : Delivery)
        → d.id ≡ db.next + 1
        → d.status ≡ delivered
        → P (db.next + 2) (d ∷ db.deliveries))
    → let db' = record_outcome user channel status reason now db in P db'.next db'.deliveries
record_outcome-rows user channel status reason now db P h new =
    rw (record_outcome-settled user channel status reason now db)
      (settled-rows user channel (outcome_state user channel status db) reason now _ _ db P h new)
