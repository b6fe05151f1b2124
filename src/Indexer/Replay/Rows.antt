-- ===== src/Indexer/Replay/Rows.antt =====
-- The handlers of goals, subscriptions and scores (backend/src/indexer/projections.ts) and the event
-- log.
use stellar_tipz.Base.{ℕ, refl, Bool, Option, List, arith}
use stellar_tipz.Base.Int.{ℤ}
use stellar_tipz.Base.Text.{String}
use stellar_tipz.Indexer.Value.{Value, Number, Event}
use stellar_tipz.Indexer.State.{World, Goal, Subscription, Exec, write}
use stellar_tipz.Indexer.Projections.Goals.{
  put_goal, project_goal_set, notify_goal_reached, reach_goal, project_goal_reached,
  project_goal_completed, cancel_goal, project_goal_cancelled,
}
use stellar_tipz.Indexer.Projections.Subscriptions.{
  put_subscription, change_subscription, with_parties, create_subscription,
  project_subscription_created, project_subscription_change, charge_subscription,
  project_subscription_charged, project_subscription_cancelled,
}
use stellar_tipz.Indexer.Projections.Scores.{
  append_history, write_score, project_credit_score_updated,
}
use stellar_tipz.Indexer.Replay.Frame.{SameLog, Frames, Frames-write, Frames-then, frame_rules}
use stellar_tipz.Indexer.Replay.Handlers.{persist-Frames, warn-Frames, ensure_user_id-Frames}

put_goal-Frames : (user : ℕ) (f : Option Goal → Goal) → Frames (write (put_goal user f))
put_goal-Frames user f =
    Frames-write _ (λ w. record { log = refl; messages = refl; progress = refl })

pub ruleset row_rules = (frame_rules, warn-Frames, ensure_user_id-Frames, persist-Frames)

pub project_goal_set-Frames : (e : Event) → Frames (project_goal_set e)
unfolding project_goal_set
project_goal_set-Frames e = search (row_rules, put_goal-Frames) depth 8

notify_goal_reached-Frames :
    (user : ℕ) (raised : ℤ) (now : ℕ) → Frames (notify_goal_reached user raised now)
unfolding notify_goal_reached
notify_goal_reached-Frames user raised now = search row_rules

reach_goal-Frames :
    (c : String) (target raised : ℤ) (now : ℕ) → Frames (reach_goal c target raised now)
unfolding reach_goal
reach_goal-Frames c target raised now =
    search (row_rules, put_goal-Frames, notify_goal_reached-Frames) depth 8

pub project_goal_reached-Frames : (e : Event) (now : ℕ) → Frames (project_goal_reached e now)
unfolding project_goal_reached
project_goal_reached-Frames e now = search (row_rules, reach_goal-Frames) depth 8

pub project_goal_completed-Frames : (e : Event) → Frames (project_goal_completed e)
unfolding project_goal_completed
project_goal_completed-Frames e = search (row_rules, put_goal-Frames) depth 8

cancel_goal-SameLog : (user : ℕ) (w : World) → SameLog w (cancel_goal user w)
unfolding cancel_goal
cancel_goal-SameLog user w = ground arith

cancel_goal-Frames : (user : ℕ) → Frames (write (cancel_goal user))
cancel_goal-Frames user = Frames-write _ (cancel_goal-SameLog user)

pub project_goal_cancelled-Frames : (e : Event) → Frames (project_goal_cancelled e)
unfolding project_goal_cancelled
project_goal_cancelled-Frames e = search (row_rules, cancel_goal-Frames) depth 8

put_subscription-Frames :
    (t c : ℕ) (f : Option Subscription → Subscription) → Frames (write (put_subscription t c f))
put_subscription-Frames t c f =
    Frames-write _ (λ w. record { log = refl; messages = refl; progress = refl })

change_subscription-SameLog :
    (t c : ℕ) (f : Subscription → Subscription) (w : World)
    → SameLog w (change_subscription t c f w)
change_subscription-SameLog t c f w = ground arith

change_subscription-Frames :
    (t c : ℕ) (f : Subscription → Subscription) → Frames (write (change_subscription t c f))
change_subscription-Frames t c f = Frames-write _ (change_subscription-SameLog t c f)

with_parties-Frames :
    (s c : Value) (k : ℕ → ℕ → Exec (Unit {0}))
    → ((i j : ℕ) → Frames (k i j))
    → Frames (with_parties s c k)
unfolding with_parties
with_parties-Frames s c k h = search row_rules depth 8

create_subscription-Frames :
    (args : List Value) (z : ℤ) (now i j : ℕ) → Frames (create_subscription args z now i j)
unfolding create_subscription
create_subscription-Frames args z now i j =
    Frames-write _ (λ w. record { log = refl; messages = refl; progress = refl })

pub project_subscription_created-Frames :
    (e : Event) (n : Bool) (now : ℕ) → Frames (project_subscription_created e n now)
unfolding project_subscription_created
project_subscription_created-Frames e n now =
    search (row_rules, with_parties-Frames, create_subscription-Frames) depth 8

pub project_subscription_change-Frames :
    (e : Event) (n : Bool) → Frames (project_subscription_change e n)
unfolding project_subscription_change
project_subscription_change-Frames e n =
    search (row_rules, with_parties-Frames, change_subscription-Frames) depth 8

charge_subscription-Frames :
    (args : List Value) (z : ℤ) (n : Bool) (now i j : ℕ)
    → Frames (charge_subscription args z n now i j)
unfolding charge_subscription
charge_subscription-Frames args z n now i j = search (row_rules, put_subscription-Frames) depth 8

pub project_subscription_charged-Frames :
    (e : Event) (n : Bool) (now : ℕ) → Frames (project_subscription_charged e n now)
unfolding project_subscription_charged
project_subscription_charged-Frames e n now =
    search (row_rules, with_parties-Frames, charge_subscription-Frames) depth 8

pub project_subscription_cancelled-Frames :
    (e : Event) (n : Bool) → Frames (project_subscription_cancelled e n)
unfolding project_subscription_cancelled
project_subscription_cancelled-Frames e n =
    search (row_rules, with_parties-Frames, change_subscription-Frames) depth 8

append_history-SameLog : (u l : ℕ) (v : Number) (w : World) → SameLog w (append_history u l v w)
unfolding append_history
append_history-SameLog u l v w = ground arith

write_score-Frames : (u l : ℕ) (v : Number) → Frames (write_score u l v)
unfolding write_score
write_score-Frames u l v =
    Frames-then _ _ (Frames-write _ (λ w. record { log = refl; messages = refl; progress = refl }))
      (Frames-write _ (append_history-SameLog u l v))

pub project_credit_score_updated-Frames : (e : Event) → Frames (project_credit_score_updated e)
unfolding project_credit_score_updated
project_credit_score_updated-Frames e = search (row_rules, write_score-Frames) depth 8
