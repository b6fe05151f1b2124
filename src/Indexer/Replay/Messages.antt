-- ===== src/Indexer/Replay/Messages.antt =====
-- The body of `projectEvent` (backend/src/indexer/projections.ts) and the event log.
use stellar_tipz.Base.{ℕ, Bool, true, false, Option, none, some, when_some, if◌then◌else◌}
use stellar_tipz.Base.Text.{String}
use stellar_tipz.Indexer.Value.{Event}
use stellar_tipz.Indexer.State.{Exec}
use stellar_tipz.Indexer.Projections.{run_handler, handler_of, project_body, is_tip_topic}
use stellar_tipz.Indexer.Replay.Frame.{Frames, Frames-if, Frames-then, frame_rules}
use stellar_tipz.Indexer.Replay.Handlers.{
  warn-Frames, project_tip-Frames, project_refund-Frames, project_profile_registered-Frames,
  project_profile_updated-Frames,
}
use stellar_tipz.Indexer.Replay.Rows.{
  project_goal_set-Frames, project_goal_reached-Frames, project_goal_completed-Frames,
  project_goal_cancelled-Frames, project_subscription_created-Frames,
  project_subscription_change-Frames, project_subscription_charged-Frames,
  project_subscription_cancelled-Frames, project_credit_score_updated-Frames,
}

-- A handler, if there is one, is a frame.
data HandlerFrames : Option (Event → Bool → ℕ → Exec (Unit {0})) → Type 1 where
  absent : HandlerFrames none
  present :
      (h : Event → Bool → ℕ → Exec (Unit {0}))
      → ((e : Event) (n : Bool) (now : ℕ) → Frames (h e n now))
      → HandlerFrames (some h)

HandlerFrames-if :
    (b : Bool) (o p : Option (Event → Bool → ℕ → Exec (Unit {0})))
    → HandlerFrames o
    → HandlerFrames p
    → HandlerFrames (if b then o else p)
HandlerFrames-if true o p ho hp = ho
HandlerFrames-if false o p ho hp = hp

ruleset handler_rules = (
  absent, present, HandlerFrames-if, project_profile_registered-Frames,
  project_profile_updated-Frames, project_goal_set-Frames, project_goal_reached-Frames,
  project_goal_completed-Frames, project_goal_cancelled-Frames, project_subscription_created-Frames,
  project_subscription_change-Frames, project_subscription_charged-Frames,
  project_subscription_cancelled-Frames, project_credit_score_updated-Frames,
)

handler_of-Frames : (t : String) → HandlerFrames (handler_of t)
unfolding handler_of
handler_of-Frames t = search handler_rules depth 20

run_under-Frames :
    (o : Option (Event → Bool → ℕ → Exec (Unit {0}))) (m : Exec (Unit {0})) (e : Event) (n : Bool)
    (now : ℕ)
    → HandlerFrames o
    → Frames m
    → Frames (when_some o m (λ h. h e n now))
run_under-Frames none m e n now absent hm = hm
run_under-Frames (some h) m e n now (present _ ho) hm = ho e n now

pub run_handler-Frames : (e : Event) (n : Bool) (now : ℕ) → Frames (run_handler e n now)
unfolding run_handler
run_handler-Frames e n now =
    run_under-Frames (handler_of e.topic) _ e n now (handler_of-Frames e.topic)
      (search (frame_rules, warn-Frames))

-- The projection of an event, new or not, whatever fails, leaves the log, the messages and the cursors alone.
pub project_body-Frames : (e : Event) (n : Bool) (now : ℕ) → Frames (project_body e n now)
unfolding project_body
project_body-Frames e n now =
    Frames-if (is_tip_topic e.topic) _ _ (project_tip-Frames e now)
      (Frames-then _ _ (run_handler-Frames e n now) (search (frame_rules, project_refund-Frames)))
