-- ===== src/Indexer/Replay/Lost.antt =====
-- Replays of an event that is stored but not projected (backend/src/indexer/projections.ts).
use stellar_tipz.Base.{ℕ, ◌≡◌, refl, Bool, true, false, none, some, [], ◌∷◌}
use stellar_tipz.Base.Int.{ℤ}
use stellar_tipz.Base.Text.{String}
use stellar_tipz.Indexer.Value.{Value, Event, arg, subscription_args, as_text, to_bigint}
use stellar_tipz.Indexer.State.{
  World, ok, thrown, database_down, return, call, call_under, query, after, ◌>>=◌, ◌>>◌, at_event,
}
use stellar_tipz.Indexer.Projections.Users.{ensure_user_id}
use stellar_tipz.Indexer.Projections.Subscriptions.{with_parties, project_subscription_created}
use stellar_tipz.Indexer.Replay.Once.{same_event_refl}
use stellar_tipz.Indexer.Projections.{
  key_of, insert_event, persist_event_log, create_event_log, handler_of, run_handler, project_body,
  project_event, is_tip_topic, is_refund_topic,
}

-- An event of the topic `sub_created`.
abbrev pub created_event : ℕ → String → String → Value → Event
created_event ledger tx token value = record {
  ledger = ledger;
  tx_hash = tx;
  paging_token = token;
  topic = "sub_created";
  value = value;
}

module _ (ledger : ℕ) (tx token : String) (value : Value) where
  abbrev created : Event
  created = created_event ledger tx token value

  created_body :
      (is_new : Bool) (now : ℕ)
      → project_body created is_new now
        ≡ (do project_subscription_created created is_new now; return tt)
  unfolding project_body run_handler handler_of is_tip_topic is_refund_topic
  created_body is_new now = refl

  stored_before :
      (v : Value) (w : World)
      → w.faults ≡ []
      → w.event_log (key_of created) ≡ some v
      → persist_event_log created w ≡ (ok false, w)
  unfolding persist_event_log query call call_under ◌>>=◌ after return
  stored_before v w calm there = rw (calm, there) refl

  skipped : (now : ℕ) (w : World) → project_body created false now w ≡ (ok tt, w)
  unfolding project_body run_handler handler_of is_tip_topic is_refund_topic
      project_subscription_created ◌>>=◌ ◌>>◌ after return
  skipped now w = refl

  -- Once it is stored, a replay does nothing at all.
  pub created_replay :
      (now : ℕ) (v : Value) (w : World)
      → w.faults ≡ []
      → w.event_log (key_of created) ≡ some v
      → project_event created now w ≡ (ok tt, w)
  unfolding project_event ◌>>=◌ ◌>>◌ after return
  created_replay now v w calm there = rw (stored_before v w calm there, skipped now w) refl

  -- The world in which the event is stored and one fault has struck.
  abbrev stored_only : World → World
  stored_only w = record w { faults = []; event_log = at_event (key_of created) value w.event_log }

  new_one :
      (w : World)
      → w.faults ≡ false ∷ false ∷ true ∷ []
      → w.event_log (key_of created) ≡ none
      → persist_event_log created w ≡ (ok true, record (stored_only w) { faults = true ∷ [] })
  unfolding persist_event_log create_event_log query call call_under ◌>>=◌ after
  new_one w third none_yet = rw (third, none_yet, insert_event, none_yet) refl

  interrupted :
      (now : ℕ) (subscriber payee : String) (amount : ℤ) (w : World)
      → w.faults ≡ true ∷ []
      → as_text (arg 0 (subscription_args value)) ≡ some subscriber
      → as_text (arg 1 (subscription_args value)) ≡ some payee
      → to_bigint (arg 2 (subscription_args value)) ≡ some amount
      → project_body created true now w ≡ (thrown database_down, record w { faults = [] })
  unfolding project_body run_handler handler_of is_tip_topic is_refund_topic with_parties
      project_subscription_created ensure_user_id call call_under ◌>>=◌ ◌>>◌ after return
  interrupted now subscriber payee amount w down s p a = rw (a, s, p, down) refl

  first_time :
      (now : ℕ) (subscriber payee : String) (amount : ℤ) (w : World)
      → w.faults ≡ false ∷ false ∷ true ∷ []
      → w.event_log (key_of created) ≡ none
      → as_text (arg 0 (subscription_args value)) ≡ some subscriber
      → as_text (arg 1 (subscription_args value)) ≡ some payee
      → to_bigint (arg 2 (subscription_args value)) ≡ some amount
      → project_event created now w ≡ (thrown database_down, stored_only w)
  unfolding project_event ◌>>=◌ ◌>>◌ after
  first_time now subscriber payee amount w third none_yet s p a =
      rw
        (
          new_one w third none_yet,
          interrupted now subscriber payee amount (record (stored_only w) { faults = true ∷ [] })
              refl s p a,
        )
        refl

  -- An event `sub_created` with a readable payload, whose third call of the database fails: the
  -- projection throws; every later projection of the event returns and changes nothing; and no
  -- subscription has been written and no message sent.
  pub lost_subscription :
      (now later : ℕ) (subscriber payee : String) (amount : ℤ) (w : World)
      → w.faults ≡ false ∷ false ∷ true ∷ []
      → w.event_log (key_of created) ≡ none
      → as_text (arg 0 (subscription_args value)) ≡ some subscriber
      → as_text (arg 1 (subscription_args value)) ≡ some payee
      → to_bigint (arg 2 (subscription_args value)) ≡ some amount
      → let (r, v) = project_event created now w in
        (r ≡ thrown database_down)
        × (project_event created later v ≡ (ok tt, v))
        × (v.subscriptions ≡ w.subscriptions)
        × (v.published ≡ w.published)
  lost_subscription now later subscriber payee amount w third none_yet s p a =
      rw (first_time now subscriber payee amount w third none_yet s p a) (
        refl,
        created_replay later value (stored_only w) refl
            (rw (same_event_refl (key_of created)) refl),
        refl,
        refl,
      )
