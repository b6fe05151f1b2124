-- ===== src/Indexer/Projections/Goals.antt =====
-- Goals: `projectGoalSet`, `projectGoalReached`, `projectGoalCompleted`, `projectGoalCancelled`.
-- A user has one on-chain goal, with the id `goal_<userId>`.
use stellar_tipz.Base.{when_some, ℕ, ◌+◌, Bool, true, false, Option, none, some, if◌then◌else◌}
use stellar_tipz.Base.Int.{ℤ, pos}
use stellar_tipz.Base.Text.{String}
use stellar_tipz.Indexer.Value.{
  Event, arg, tuple_args, address_arg, as_text, to_bigint, to_timestamp,
}
use stellar_tipz.Indexer.State.{
  World, Goal, active, completed, cancelled, goal_reached, Exec, ◌>>=◌, ◌>>◌, return, query, write,
  catching, at_id,
}
use stellar_tipz.Indexer.Notify.{persist_notification}
use stellar_tipz.Indexer.Projections.Users.{ensure_user_id, warn_unparseable}

abbrev pub title_of : Option String → String
title_of (some t) = t
title_of none = ""

unfoldable pub set_goal : String → ℤ → Option ℤ → Option Goal → Goal
set_goal title target deadline none = record {
  title = title;
  target_stroops = target;
  raised_stroops = pos 0;
  deadline = deadline;
  status = active;
  version = 0;
}
set_goal title target deadline (some g) = record g {
  title = title;
  target_stroops = target;
  deadline = deadline;
  status = active;
  version = g.version + 1;
}

-- `bump` is 1 where the update increments the version.
unfoldable pub complete_goal : ℕ → ℤ → ℤ → Option Goal → Goal
complete_goal bump target raised none = record {
  title = "";
  target_stroops = target;
  raised_stroops = raised;
  deadline = none;
  status = completed;
  version = 0;
}
complete_goal bump target raised (some g) = record g {
  target_stroops = target;
  raised_stroops = raised;
  status = completed;
  version = g.version + bump;
}

abbrev pub put_goal : ℕ → (Option Goal → Goal) → World → World
put_goal user f w = record w { goals = at_id user (f (w.goals user)) w.goals }

unfoldable pub project_goal_set : Event → Exec (Unit {0})
unfolding set_goal
project_goal_set e =
    let args = tuple_args e.value in
    when_some (as_text (arg 0 args)) warn_unparseable (λ creator.
      when_some (to_bigint (arg 1 args)) warn_unparseable (λ target. do
        user ← ensure_user_id creator
        write (
            put_goal user
              (set_goal (title_of (as_text (arg 2 args))) target (to_timestamp (arg 3 args))))))

unfoldable pub is_completed : Option Goal → Bool
is_completed none = false
is_completed (some g) = elim g.status [ completed ↦ true | _ ↦ false ]

-- The notification's failure is caught and logged.
unfoldable pub notify_goal_reached : ℕ → ℤ → ℕ → Exec (Unit {0})
notify_goal_reached user raised now =
    catching (persist_notification user goal_reached raised now) (λ failure. return tt)

unfoldable pub reach_goal : String → ℤ → ℤ → ℕ → Exec (Unit {0})
unfolding complete_goal is_completed notify_goal_reached
reach_goal creator target raised now = do
  user ← ensure_user_id creator
  existing ← query (λ w. w.goals user)
  write (put_goal user (complete_goal 1 target raised))
  if is_completed existing then return tt else notify_goal_reached user raised now

unfoldable pub project_goal_reached : Event → ℕ → Exec (Unit {0})
unfolding reach_goal
project_goal_reached e now =
    let args = tuple_args e.value in
    when_some (as_text (arg 0 args)) warn_unparseable (λ creator.
      when_some (to_bigint (arg 1 args)) warn_unparseable (λ target.
        when_some (to_bigint (arg 2 args)) warn_unparseable
          (λ raised. reach_goal creator target raised now)))

unfoldable pub project_goal_completed : Event → Exec (Unit {0})
unfolding complete_goal
project_goal_completed e =
    let args = tuple_args e.value in
    when_some (as_text (arg 0 args)) warn_unparseable (λ creator.
      when_some (to_bigint (arg 2 args)) warn_unparseable (λ target.
        when_some (to_bigint (arg 3 args)) warn_unparseable (λ raised. do
          user ← ensure_user_id creator
          write (put_goal user (complete_goal 0 target raised)))))

-- `updateMany`: no row, no change.
unfoldable pub cancel_goal : ℕ → World → World
cancel_goal user w = elim (w.goals user) [
  | none ↦ w
  | some g ↦ record w {
    goals = at_id user (record g { status = cancelled; version = g.version + 1 }) w.goals;
  }
]

unfoldable pub project_goal_cancelled : Event → Exec (Unit {0})
unfolding cancel_goal
project_goal_cancelled e =
    when_some (address_arg e.value) warn_unparseable
      (λ creator. do user ← ensure_user_id creator; write (cancel_goal user))
