-- ===== src/Notifications/Outcomes.antt =====
-- The suppression of a channel and the outcome of one delivery
-- (backend/src/modules/notifications/delivery.ts).
use stellar_tipz.Base.{
  ℕ, ◌+◌, ◌≤◌, ◌≡◌, ◌⊎◌, sym, ap, ◌∙◌, inl, inr, Bool, true, false, not, ◌&&◌, ◌||◌, Option, List,
  [], ◌∷◌, arith, All, All_map, ◌==◌, update_where, Bool-cases, if◌then◌else◌,
}
use stellar_tipz.Base.Text.{String}
use stellar_tipz.Notifications.{
  Channel, in_app, DeliveryStatus, bounced, Delivery, DeliveryDb, same_channel, same_status, is_key,
  record_outcome,
}
use stellar_tipz.Notifications.Rows.{
  Below, Below-raise, failures, is_off, count_notices, key_same, closes, Counted,
  record_outcome-Counted, record_outcome-other, record_outcome-rows,
}

-- What holds of the number of failures, of the notices and of being closed.
pub record Consistent (c : Channel) (failed_last noticed : ℕ) (off : Bool) : Type 0 where
  pub third : same_channel c in_app ≡ false → 3 ≤ failed_last → off ≡ true
  pub app_open : same_channel c in_app ≡ true → off ≡ false
  pub announced : noticed ≡ (if off then 1 else 0)

-- A bounce of the channel that closes it, if it is not the app's.
abbrev pub BounceCloses : ℕ → Channel → Bool → Delivery → Type 0
BounceCloses u c off d =
    same_channel c in_app ≡ false
    → is_key d.user_id d.channel u c ≡ true
    → same_status d.status bounced ≡ true
    → off ≡ true

pub record Sound (u : ℕ) (c : Channel) (db : DeliveryDb) : Type 0 where
  pub rows : Below db.next db.deliveries
  pub bounces : All (BounceCloses u c (is_off (db.states u c))) db.deliveries
  pub consistent :
      Consistent c
        (failures (db.states u c))
        (count_notices u c db.notices)
        (is_off (db.states u c))

-- An update by the rows that it changes and those that it leaves.
pub All-update_to :
    (P Q : Delivery → Type 0) (test : Delivery → Bool) (change : Delivery → Delivery)
    (ds : List Delivery)
    → ((d : Delivery) → test d ≡ true → P d → Q (change d))
    → ((d : Delivery) → P d → Q d)
    → All P ds
    → All Q (update_where test change ds)
All-update_to P Q test change [] f g h = tt
All-update_to P Q test change (d ∷ ds) f g (h, hs) = elim (Bool-cases (test d)) [
  | inl p ↦ rw p (f d p h, All-update_to P Q test change ds f g hs)
  | inr p ↦ rw p (g d h, All-update_to P Q test change ds f g hs)
]

All_zip {ℓ κ μ} :
    {A : Type ℓ} (P : A → Type κ) (Q : A → Type μ) (xs : List A)
    → All P xs
    → All Q xs
    → All (λ x. P x × Q x) xs
All_zip P Q [] h k = tt
All_zip P Q (x ∷ xs) (h, hs) (k, ks) = ((h, k), All_zip P Q xs hs ks)

abbrev once : Bool → ℕ
once off = if off then 1 else 0

either_once : (off test : Bool) → once off + once (test && not off) ≡ once (off || test)
either_once true true = omega arith
either_once true false = omega arith
either_once false true = omega arith
either_once false false = omega arith

module _ (u : ℕ) (c : Channel) where
  Consistent-Counted :
      (status : DeliveryStatus) (db db' : DeliveryDb)
      → Counted u c status db db'
      → Consistent c
          (failures (db.states u c))
          (count_notices u c db.notices)
          (is_off (db.states u c))
      → Consistent c
          (failures (db'.states u c))
          (count_notices u c db'.notices)
          (is_off (db'.states u c))
  Consistent-Counted status db db' k h = record {
    third = λ other le. k.closed ∙ ground (arith, other, le);
    app_open = λ app. k.closed ∙ ground (arith, app, h.app_open app);
    announced =
        let off = is_off (db.states u c) in
        let now_closed = closes c status (failures (db'.states u c)) in
        k.notices ∙ rw h.announced (either_once off now_closed) ∙ ap once (sym k.closed);
  }

  -- The rows after a change of status, before the outcome is counted: a bounce is an old one or this.
  abbrev Moved : Delivery → DeliveryStatus → Bool → Delivery → Type 0
  Moved d status off x =
      same_channel c in_app ≡ false
      → is_key x.user_id x.channel u c ≡ true
      → same_status x.status bounced ≡ true
      → (off ≡ true)
        ⊎ ((is_key d.user_id d.channel u c ≡ true) × (same_status status bounced ≡ true))

  outcome-rows :
      (d : Delivery) (status : DeliveryStatus) (reason : Option String) (now : ℕ) (db : DeliveryDb)
      → let db' = record_outcome d.user_id d.channel status reason now db in
        Below db.next db.deliveries
        → All (BounceCloses u c (is_off (db'.states u c))) db.deliveries
        → Consistent c
            (failures (db'.states u c))
            (count_notices u c db'.notices)
            (is_off (db'.states u c))
        → Sound u c db'
  unfolding Below
  outcome-rows d status reason now db b h k =
      let off = is_off ((record_outcome d.user_id d.channel status reason now db).states u c) in
      let (below, bounces) =
        record_outcome-rows d.user_id d.channel status reason now db
          (λ n ds. Below n ds × All (BounceCloses u c off) ds) (b, h)
          (λ x i s. (
            (omega arith, Below-raise db.next x.id db.deliveries (omega arith) b),
            (λ other key is_bounce. absurd (ground (arith, s, is_bounce)), h),
          )) in
      record { rows = below; bounces = bounces; consistent = k }

  pub outcome-Sound :
      (d : Delivery) (status : DeliveryStatus) (reason : Option String) (now : ℕ) (db : DeliveryDb)
      → Below db.next db.deliveries
      → All (Moved d status (is_off (db.states u c))) db.deliveries
      → Consistent c
          (failures (db.states u c))
          (count_notices u c db.notices)
          (is_off (db.states u c))
      → Sound u c (record_outcome d.user_id d.channel status reason now db)
  outcome-Sound d status reason now db b h k =
      let db' = record_outcome d.user_id d.channel status reason now db in
      elim (Bool-cases (is_key d.user_id d.channel u c)) [
        | inl hit ↦
            let (user, channel) = key_same d.user_id u d.channel c hit in
            let counted : Counted u c status db db' =
              rw (user, channel) (record_outcome-Counted u c status reason now db) in
            outcome-rows d status reason now db b
              (All_map
                (λ x m other key is_bounce. elim (m other key is_bounce) [
                  | inl off ↦ counted.closed ∙ ground (arith, off)
                  | inr (_, bounce) ↦ counted.closed ∙ ground (arith, other, bounce)
                ])
                db.deliveries h)
              (Consistent-Counted status db db' counted k)
        | inr miss ↦
            let (state, notices) =
              record_outcome-other d.user_id u d.channel c status reason now db miss in
            outcome-rows d status reason now db b
              (All_map
                (λ x m other key is_bounce. elim (m other key is_bounce) [
                  | inl off ↦ ap is_off state ∙ off
                  | inr (hit, _) ↦ absurd (ground (arith, miss, hit))
                ])
                db.deliveries h)
              (rw (state, notices) k)
      ]

  -- The rows after the change of one status.
  pub update-Moved :
      (d : Delivery) (status : DeliveryStatus) (reason : Option String) (off : Bool)
      (ds : List Delivery)
      → All (λ x. x.id ≡ d.id → x ≡ d) ds
      → All (BounceCloses u c off) ds
      → All (Moved d status off) (
          update_where
            (λ x. (x.id == d.id) && same_status x.status d.status)
            (λ x. record x { status = status; reason = reason })
            ds)
  update-Moved d status reason off ds alone h =
      All-update_to (λ x. (x.id ≡ d.id → x ≡ d) × BounceCloses u c off x) (Moved d status off) _ _
        ds
        (λ x p (same, closes_it) other key is_bounce.
          let x_d : x ≡ d = same (ground (arith, p)) in
          inr (ap (λ (y : Delivery). is_key y.user_id y.channel u c) (sym x_d) ∙ key, is_bounce))
        (λ x (same, closes_it) other key is_bounce. inl (closes_it other key is_bounce))
        (All_zip _ _ ds alone h)
