-- ===== src/Indexer/Projections.antt =====
-- `projectEvent` (backend/src/indexer/projections.ts): the event log, the dispatch on the topic and
-- the message to the realtime layer. The handlers are in the children.
pub mod Users
pub mod Tips
pub mod Goals
pub mod Subscriptions
pub mod Scores
use stellar_tipz.Base.{
  when_some, ℕ, ◌≡◌, Bool, true, false, not, ◌||◌, Option, none, some, List, [], ◌∷◌, if◌then◌else◌,
}
use stellar_tipz.Base.Text.{String, str_eq}
use stellar_tipz.Indexer.Value.{Event}
use stellar_tipz.Indexer.State.{
  World, EventKey, Exec, ◌>>=◌, ◌>>◌, return, throw, locally, query, write, call, catching, Failure,
  database_down, unique_violation, invalid_amount, at_event,
}
use Users.{project_profile_registered, project_profile_updated, warn_unparseable}
use Tips.{project_tip, project_refund}
use Goals.{project_goal_set, project_goal_reached, project_goal_completed, project_goal_cancelled}
use Subscriptions.{
  project_subscription_created, project_subscription_change, project_subscription_charged,
  project_subscription_cancelled,
}
use Scores.{project_credit_score_updated}

abbrev pub key_of : Event → EventKey
key_of e = record { tx_hash = e.tx_hash; topic = e.topic; ledger = e.ledger }

-- The insertion behind the unique key. A second row under it is refused with P2002, which is
-- caught: another worker has stored the event.
unfoldable pub insert_event : Event → World → Bool × World
insert_event e w = elim (w.event_log (key_of e)) [
  | none ↦ (true, record w { event_log = at_event (key_of e) e.value w.event_log })
  | some v ↦ (false, w)
]

unfoldable pub create_event_log : Event → Exec Bool
unfolding insert_event
create_event_log e = call (insert_event e)

-- Is this the first time that the event is seen? The row is looked for first.
unfoldable pub persist_event_log : Event → Exec Bool
unfolding create_event_log
persist_event_log e = do
  existing ← query (λ w. w.event_log (key_of e))
  when_some existing (create_event_log e) (λ v. return false)

-- `publishProjection` never throws: a failure of Redis is logged. The message that is handed to
-- Redis is recorded by its event; the copy for the creator's room goes out with it.
unfoldable pub publish_projection : Event → Exec (Unit {0})
publish_projection e = locally λ w. record w { published = key_of e ∷ w.published }

abbrev pub publish_if_new : Event → Bool → Exec (Unit {0})
publish_if_new e is_new = if is_new then publish_projection e else return tt

unfoldable pub is_tip_topic : String → Bool
is_tip_topic t = str_eq t "tip" || str_eq t "tip_sent"

unfoldable pub is_refund_topic : String → Bool
is_refund_topic t = str_eq t "refund" || str_eq t "tip_refund"

-- `PROJECTIONS[event.topic]`
unfoldable pub handler_of : String → Option (Event → Bool → ℕ → Exec (Unit {0}))
handler_of t =
    if str_eq t "profile_register"
    then some (λ e n now. project_profile_registered e)
    else if str_eq t "profile_updated"
    then some (λ e n now. project_profile_updated e)
    else if str_eq t "goal_set"
    then some (λ e n now. project_goal_set e)
    else if str_eq t "goal_reached"
    then some (λ e n now. project_goal_reached e now)
    else if str_eq t "goal_completed"
    then some (λ e n now. project_goal_completed e)
    else if str_eq t "goal_cancel"
    then some (λ e n now. project_goal_cancelled e)
    else if str_eq t "sub_created"
    then some project_subscription_created
    else if str_eq t "sub_change"
    then some (λ e n now. project_subscription_change e n)
    else if str_eq t "sub_exec"
    then some project_subscription_charged
    else if str_eq t "sub_cancel"
    then some (λ e n now. project_subscription_cancelled e n)
    else if str_eq t "credit_updated"
    then some (λ e n now. project_credit_score_updated e)
    else none

-- The handler of the event's topic; a topic that nobody handles is counted.
unfoldable pub run_handler : Event → Bool → ℕ → Exec (Unit {0})
run_handler e is_new now =
    when_some (handler_of e.topic) (if is_refund_topic e.topic then return tt else warn_unparseable)
      (λ handler. handler e is_new now)

-- The projection of the event, given whether it is new.
unfoldable pub project_body : Event → Bool → ℕ → Exec (Unit {0})
project_body e is_new now = if is_tip_topic e.topic then project_tip e now else do
  run_handler e is_new now
  if is_refund_topic e.topic then project_refund e else return tt

-- `now` is the time of the call, where the handlers read the clock.
unfoldable pub project_event : Event → ℕ → Exec (Unit {0})
project_event e now = do
  is_new ← persist_event_log e
  project_body e is_new now
  publish_if_new e is_new
