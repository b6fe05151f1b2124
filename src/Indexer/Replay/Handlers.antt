-- ===== src/Indexer/Replay/Handlers.antt =====
-- The handlers of users, tips and notifications (backend/src/indexer/projections.ts) and the event log.
use stellar_tipz.Base.{ℕ, refl, Option, none, some, arith}
use stellar_tipz.Base.Int.{ℤ, pos, ltb_ℤ}
use stellar_tipz.Base.Text.{String}
use stellar_tipz.Indexer.Value.{Event, ParsedTip, ParsedRefund}
use stellar_tipz.Indexer.State.{
  World, Tip, Preference, NotificationKind, tip_received, write, Failure, database_down,
  unique_violation, invalid_amount, rpc_down, projection_failed,
}
use stellar_tipz.Indexer.Notify.{persist_notification, persist_under, enqueue_tip_batch, create}
use stellar_tipz.Indexer.Projections.Users.{
  warn_unparseable, upsert_user, ensure_user_id, project_profile_registered,
  project_profile_updated,
}
use stellar_tipz.Indexer.Projections.Tips.{
  project_tip, create_tip_once, create_tip, notify_receiver, ignore_duplicate, project_refund,
  refund_known_tip, write_refund,
}
use stellar_tipz.Indexer.Replay.Frame.{
  SameLog, Frames, Frames-locally, Frames-call, Frames-write, Frames-if, Frames-option, Frames-bind,
  Frames-then, Frames-return, Frames-query, frame_rules,
}

-- A write that changes neither is a frame; the rest follows by the rules.
create-Frames : (user : ℕ) (kind : NotificationKind) (amount : ℤ) → Frames (create user kind amount)
create-Frames user kind amount =
    Frames-write _ (λ w. record { log = refl; messages = refl; progress = refl })

enqueue-Frames : (u : ℕ) (z : ℤ) (s now : ℕ) → Frames (enqueue_tip_batch u z s now)
unfolding enqueue_tip_batch
enqueue-Frames u z s now =
    Frames-if (ltb_ℤ z (pos 0)) _ _ (search frame_rules)
      (Frames-write _ (λ w. record { log = refl; messages = refl; progress = refl }))

persist_under-Frames :
    (p : Option Preference) (user : ℕ) (kind : NotificationKind) (amount : ℤ) (now : ℕ)
    → Frames (persist_under p user kind amount now)
unfolding persist_under
persist_under-Frames none user kind amount now = create-Frames user kind amount
persist_under-Frames (some p) user kind amount now =
    search (frame_rules, create-Frames, enqueue-Frames)

pub persist-Frames :
    (user : ℕ) (kind : NotificationKind) (amount : ℤ) (now : ℕ)
    → Frames (persist_notification user kind amount now)
unfolding persist_notification
persist-Frames user kind amount now = search (frame_rules, persist_under-Frames)

pub warn-Frames : Frames warn_unparseable
unfolding warn_unparseable
warn-Frames = Frames-locally _ (λ w. record { log = refl; messages = refl; progress = refl })

ignore_duplicate-Frames : (e : Failure) → Frames (ignore_duplicate e)
ignore_duplicate-Frames unique_violation = search frame_rules
ignore_duplicate-Frames rpc_down = search frame_rules
ignore_duplicate-Frames projection_failed = search frame_rules
ignore_duplicate-Frames database_down = search frame_rules
ignore_duplicate-Frames invalid_amount = search frame_rules

create_tip-Frames : (e : Event) (t : ParsedTip) → Frames (create_tip e t)
unfolding create_tip
create_tip-Frames e t =
    Frames-write _ (λ w. record { log = refl; messages = refl; progress = refl })

notify_receiver-Frames : (t : ParsedTip) (now : ℕ) → Frames (notify_receiver t now)
unfolding notify_receiver
notify_receiver-Frames t now = Frames-bind _ _ (Frames-query _) (λ o.
    Frames-option o _ _ (Frames-return tt) (λ u. persist-Frames u.id tip_received t.amount now))

create_tip_once-Frames : (e : Event) (t : ParsedTip) (now : ℕ) → Frames (create_tip_once e t now)
unfolding create_tip_once
create_tip_once-Frames e t now = Frames-bind _ _ (Frames-query _) λ o.
    Frames-option o _ _ (Frames-then _ _ (create_tip-Frames e t) (notify_receiver-Frames t now))
      (λ row. Frames-return tt)

pub project_tip-Frames : (e : Event) (now : ℕ) → Frames (project_tip e now)
unfolding project_tip
project_tip-Frames e now = search (frame_rules, create_tip_once-Frames, ignore_duplicate-Frames)

write_refund-Frames : (e : Event) (r : ParsedRefund) (t : Tip) → Frames (write_refund e r t)
unfolding write_refund
write_refund-Frames e r t =
    Frames-then _ _ (Frames-write _ (λ w. record { log = refl; messages = refl; progress = refl }))
      (Frames-write _ (λ w. record { log = refl; messages = refl; progress = refl }))

refund_known_tip-Frames : (e : Event) (r : ParsedRefund) → Frames (refund_known_tip e r)
unfolding refund_known_tip
refund_known_tip-Frames e r =
    Frames-bind _ _ (Frames-query _)
      (λ o. Frames-option o _ _ (Frames-return tt) (λ tip. write_refund-Frames e r tip))

pub project_refund-Frames : (e : Event) → Frames (project_refund e)
unfolding project_refund
project_refund-Frames e = search (frame_rules, refund_known_tip-Frames)

upsert_user-SameLog :
    (address : String) (name : Option String) (w : World) → SameLog w (upsert_user address name w)
unfolding upsert_user
upsert_user-SameLog address name w = ground arith

pub ensure_user_id-Frames : (address : String) → Frames (ensure_user_id address)
unfolding ensure_user_id
ensure_user_id-Frames address = Frames-call _ (λ w. upsert_user-SameLog address none w)

upsert_user-Frames :
    (address : String) (name : Option String) → Frames (write (upsert_user address name))
upsert_user-Frames address name = Frames-write _ (upsert_user-SameLog address name)

pub project_profile_registered-Frames : (e : Event) → Frames (project_profile_registered e)
unfolding project_profile_registered
project_profile_registered-Frames e = search (frame_rules, warn-Frames, upsert_user-Frames)

pub project_profile_updated-Frames : (e : Event) → Frames (project_profile_updated e)
unfolding project_profile_updated
project_profile_updated-Frames e = search (frame_rules, warn-Frames, ensure_user_id-Frames)
