-- ===== src/Notifications/Tests.antt =====
-- Receipts at concrete inputs: a bounce, three failures, and an acknowledgement that comes too late.
use stellar_tipz.Base.{ℕ, ◌≡◌, refl, none, some, List, [], ◌∷◌, All}
use stellar_tipz.Notifications.{
  email, push, sent, delivered, failed, bounced, error, bad_request, not_found, queue_delivery,
  transition_delivery, lacks_reason, is_white, find_delivery, move_delivery, transitions,
  record_outcome, count_outcome, disable_channel, announce, Step, queue, receipt, empty_db, step,
  steps, acknowledge_delivery_sent,
}
use stellar_tipz.Notifications.Rows.{failures, is_off, count_notices}
use stellar_tipz.Notifications.Outcomes.{BounceCloses, Consistent}
use stellar_tipz.Notifications.Suppression.{suppressed_channels}

abbrev hard_bounce : List (Step × ℕ)
hard_bounce =
    (queue 7 email none, 1)
    ∷ (receipt 0 delivered none, 2)
    ∷ (receipt 0 bounced (some "no mailbox"), 3)
    ∷ []

suppressed_channels_example :
    let db = steps hard_bounce empty_db in
    All (BounceCloses 7 email (is_off (db.states 7 email))) db.deliveries
    × Consistent email
        (failures (db.states 7 email))
        (count_notices 7 email db.notices)
        (is_off (db.states 7 email))
suppressed_channels_example = suppressed_channels hard_bounce 7 email

refused_after_bounce :
    (queue_delivery 7 email none (steps hard_bounce empty_db)).0 ≡ error bad_request
unfolding steps step queue_delivery transition_delivery lacks_reason is_white find_delivery
    move_delivery transitions record_outcome count_outcome disable_channel announce
refused_after_bounce = refl

blank_reason :
    (transition_delivery 0 failed (some " \t ") 2 (steps ((queue 7 push none, 1) ∷ []) empty_db)).0
    ≡ error bad_request
unfolding steps step queue_delivery transition_delivery lacks_reason is_white
blank_reason = refl

late_acknowledgement :
    let db = steps ((queue 7 push none, 1) ∷ (receipt 0 delivered none, 2) ∷ []) empty_db in
    acknowledge_delivery_sent 0 db ≡ db
unfolding steps step queue_delivery transition_delivery find_delivery move_delivery transitions
    record_outcome count_outcome acknowledge_delivery_sent
late_acknowledgement = refl

no_delivery : (transition_delivery 5 sent none 1 empty_db).0 ≡ error not_found
unfolding transition_delivery find_delivery
no_delivery = refl
