-- ===== src/Notifications/Suppression.antt =====
-- The suppression of a channel over any steps of backend/src/modules/notifications/delivery.ts.
use stellar_tipz.Base.{
  ℕ, ◌≡◌, ◌≢◌, refl, inl, inr, Bool, true, false, ◌&&◌, ◌||◌, Option, List, [], ◌∷◌, arith, All,
  All_map, ◌==◌, length, filter, update_where, Bool-cases, Option-cases, when_some,
}
use stellar_tipz.Base.Text.{String}
use stellar_tipz.Notifications.{
  Channel, DeliveryStatus, queued, sent, bounced, delivered, failed, Delivery, DeliveryDb,
  same_status, is_some, is_failure, includes, transitions, lacks_reason, queue_delivery,
  move_delivery, find_delivery, transition_delivery, acknowledge_delivery_sent, Step, queue,
  receipt, acknowledge, empty_db, step, steps,
}
use stellar_tipz.Notifications.Rows.{
  Below, Below-update, found_alone, failures, is_off, count_notices,
}
use stellar_tipz.Notifications.Outcomes.{
  Consistent, BounceCloses, Sound, All-update_to, outcome-Sound, update-Moved,
}

uncounted :
    (status : DeliveryStatus)
    → (is_failure status || same_status status delivered) ≡ false
    → same_status status bounced ≢ true
uncounted queued p q = ground arith
uncounted sent p q = ground arith
uncounted delivered p q = ground arith
uncounted failed p q = ground arith
uncounted bounced p q = ground arith

module _ (u : ℕ) (c : Channel) where
  move_delivery-Sound :
      (d : Delivery) (status : DeliveryStatus) (reason : Option String) (now : ℕ) (db : DeliveryDb)
      → All (λ x. x.id ≡ d.id → x ≡ d) db.deliveries
      → Sound u c db
      → Sound u c (move_delivery d status reason now db).1
  unfolding move_delivery
  move_delivery-Sound d status reason now db alone h =
      let is_row : Delivery → Bool = λ x. (x.id == d.id) && same_status x.status d.status in
      let moved =
        update-Moved u c d status reason (is_off (db.states u c)) db.deliveries alone h.bounces in
      let rows_moved = record db {
        deliveries =
            update_where is_row (λ x. record x { status = status; reason = reason }) db.deliveries;
      } in
      let below =
        Below-update is_row (λ x. record x { status = status; reason = reason }) db.next
          db.deliveries (λ x. refl) h.rows in
      elim (Bool-cases (same_status d.status status)) [
        | inl p ↦ rw p h
        | inr p ↦ rw p (elim (Bool-cases (includes status (transitions d.status))) [
          | inr q ↦ rw q h
          | inl q ↦ rw q (elim (Bool-cases (length (filter is_row db.deliveries) == 0)) [
            | inl r ↦ rw r h
            | inr r ↦ rw r (elim (Bool-cases (is_failure status || same_status status delivered)) [
              | inl s ↦
                  rw s (outcome-Sound u c d status reason now rows_moved below moved h.consistent)
              | inr s ↦ rw s (record {
                rows = below;
                bounces =
                    All_map
                      (λ x m other key is_bounce. elim (m other key is_bounce) [
                        | inl off ↦ off
                        | inr (_, bounce) ↦ absurd (uncounted status s bounce)
                      ])
                      _ moved;
                consistent = h.consistent;
              })
            ])
          ])
        ])
      ]

  queue_delivery-Sound :
      (user : ℕ) (channel : Channel) (notification : Option ℕ) (db : DeliveryDb)
      → Sound u c db
      → Sound u c (queue_delivery user channel notification db).1
  unfolding queue_delivery Below
  queue_delivery-Sound user channel notification db h =
      elim (Bool-cases (when_some (db.states user channel) false (λ s. is_some s.disabled_at))) [
        | inl p ↦ rw p h
        | inr p ↦ rw p (record {
          rows = (omega arith, h.rows);
          bounces = (λ other key is_bounce. absurd (ground (arith, is_bounce)), h.bounces);
          consistent = h.consistent;
        })
      ]

  acknowledge-Sound :
      (id : ℕ) (db : DeliveryDb) → Sound u c db → Sound u c (acknowledge_delivery_sent id db)
  unfolding acknowledge_delivery_sent
  acknowledge-Sound id db h = record {
    rows = Below-update _ _ db.next db.deliveries (λ d. refl) h.rows;
    bounces =
        All-update_to (BounceCloses u c (is_off (db.states u c)))
          (BounceCloses u c (is_off (db.states u c))) _ _ db.deliveries
          (λ d p k other key is_bounce. absurd (ground (arith, is_bounce))) (λ d k. k) h.bounces;
    consistent = h.consistent;
  }

  transition_delivery-Sound :
      (id : ℕ) (status : DeliveryStatus) (reason : Option String) (now : ℕ) (db : DeliveryDb)
      → Sound u c db
      → Sound u c (transition_delivery id status reason now db).1
  unfolding transition_delivery
  transition_delivery-Sound id status reason now db h =
      elim (Bool-cases (is_failure status && lacks_reason reason)) [
        | inl p ↦ rw p h
        | inr p ↦ rw p (elim (Option-cases (find_delivery id db.deliveries)) [
          | inl e ↦ rw e h
          | inr (d, e) ↦
              let (alone, _) = found_alone db.next id d db.deliveries h.rows e in
              rw e (move_delivery-Sound d status reason now db alone h)
        ])
      ]

  step-Sound : (s : Step) (now : ℕ) (db : DeliveryDb) → Sound u c db → Sound u c (step s now db)
  unfolding step
  step-Sound (queue user channel notification) now db h =
      queue_delivery-Sound user channel notification db h
  step-Sound (receipt id status reason) now db h =
      transition_delivery-Sound id status reason now db h
  step-Sound (acknowledge id) now db h = acknowledge-Sound id db h

  steps-Sound : (ss : List (Step × ℕ)) (db : DeliveryDb) → Sound u c db → Sound u c (steps ss db)
  unfolding steps
  steps-Sound [] db h = h
  steps-Sound ((s, now) ∷ ss) db h = steps-Sound ss (step s now db) (step-Sound s now db h)

  empty-Sound : Sound u c empty_db
  unfolding Below count_notices
  empty-Sound = record {
    rows = tt;
    bounces = tt;
    consistent = record {
      third = λ other le. absurd (omega arith);
      app_open = λ app. refl;
      announced = refl;
    };
  }

-- After any deliveries, receipts and acknowledgements from an empty database, for each user and
-- channel: a channel other than the app's is disabled once one of its deliveries is bounced or its
-- count of consecutive failures is three or more; the app's is never disabled; and one notification has told
-- of a channel that is disabled, and none of one that is not.
pub suppressed_channels :
    (ss : List (Step × ℕ)) (u : ℕ) (c : Channel)
    → let db = steps ss empty_db in
      All (BounceCloses u c (is_off (db.states u c))) db.deliveries
      × Consistent c
          (failures (db.states u c))
          (count_notices u c db.notices)
          (is_off (db.states u c))
suppressed_channels ss u c =
    let h = steps-Sound u c ss empty_db (empty-Sound u c) in (h.bounces, h.consistent)
