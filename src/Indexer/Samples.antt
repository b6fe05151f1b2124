-- ===== src/Indexer/Samples.antt =====
-- An empty database and an event, for the runs in the tests.
use stellar_tipz.Base.{none, []}
use stellar_tipz.Base.Int.{pos}
use stellar_tipz.Indexer.Value.{Value, array, text, bigint, nil, cons, Event}
use stellar_tipz.Indexer.State.{World}

abbrev pub empty : World
empty = record {
  faults = [];
  next_id = 1;
  event_log = λ k. none;
  tips = λ h. none;
  refunds = λ h. none;
  users = λ a. none;
  goals = λ u. none;
  subscriptions = λ t c. none;
  credit_scores = λ u. none;
  credit_history = λ u l. none;
  preferences = λ u. none;
  batches = λ u d. none;
  notifications = [];
  published = [];
  unknown_events = 0;
  cursors = λ t. none;
  checkpoints = λ t. [];
}

abbrev pub payload : Value
payload =
    array (cons (text "GA") (cons (text "GB") (cons (bigint (pos 50)) (cons (bigint (pos 7)) nil))))

abbrev pub created : Event
created = record {
  ledger = 7;
  tx_hash = "t1";
  paging_token = "p1";
  topic = "sub_created";
  value = payload;
}
