-- ===== src/Indexer/Replay/Tests.antt =====
-- A run of the indexer on one event, and the theorems at concrete inputs.
use stellar_tipz.Base.{◌≡◌, refl, Bool, true, false, List, [], ◌∷◌}
use stellar_tipz.Base.Int.{pos}
use stellar_tipz.Indexer.Value.{
  arg, as_text, subscription_args, to_bigint, tuple_args, items, skip_version, is_version_one,
}
use stellar_tipz.Indexer.State.{
  World, ok, thrown, database_down, ◌>>=◌, ◌>>◌, after, return, query, call, call_under, write,
  locally,
}
use stellar_tipz.Indexer.Projections.{
  key_of, project_event, persist_event_log, create_event_log, insert_event, project_body,
  is_tip_topic, is_refund_topic, run_handler, handler_of, publish_projection,
}
use stellar_tipz.Indexer.Projections.Subscriptions.{
  project_subscription_created, create_subscription, with_parties,
}
use stellar_tipz.Indexer.Projections.Users.{ensure_user_id, upsert_user}
use stellar_tipz.Indexer.Samples.{empty, payload, created}
use stellar_tipz.Indexer.Replay.Once.{SentOnce, nothing-SentOnce, project_all, project_all-SentOnce}
use stellar_tipz.Indexer.Replay.Lost.{lost_subscription}

abbrev third_fails : World
third_fails = record empty { faults = false ∷ false ∷ true ∷ [] }

stored_then_sent : (project_event created 100 empty).1.published ≡ key_of created ∷ []
unfolding project_event ◌>>=◌ ◌>>◌ after return query call call_under write locally
    persist_event_log create_event_log insert_event project_body is_tip_topic is_refund_topic
    run_handler handler_of project_subscription_created create_subscription with_parties
    ensure_user_id upsert_user to_bigint arg subscription_args tuple_args items skip_version
    is_version_one as_text publish_projection
stored_then_sent = refl

empty-SentOnce : (faults : List Bool) → SentOnce (record empty { faults = faults })
empty-SentOnce faults = nothing-SentOnce (record empty { faults = faults }) refl

project_all-SentOnce_example :
    SentOnce (project_all ((created, 100) ∷ (created, 200) ∷ []) third_fails)
project_all-SentOnce_example =
    project_all-SentOnce ((created, 100) ∷ (created, 200) ∷ []) third_fails
      (empty-SentOnce (false ∷ false ∷ true ∷ []))

lost_subscription_example :
    let (r, v) = project_event created 100 third_fails in
    (r ≡ thrown database_down)
    × (project_event created 200 v ≡ (ok tt, v))
    × (v.subscriptions ≡ third_fails.subscriptions)
    × (v.published ≡ third_fails.published)
unfolding as_text arg subscription_args to_bigint
lost_subscription_example =
    lost_subscription 7 "t1" "p1" payload 100 200 "GA" "GB" (pos 50) third_fails refl refl refl refl
      refl
