-- ===== src/Indexer/State/Store.antt =====
-- The rows (backend/prisma/schema.prisma, as the projections use them) and the programs over them.
use stellar_tipz.Base.{ℕ, Bool, true, false, ◌&&◌, Option, some, List, [], ◌∷◌, ◌==◌, if◌then◌else◌}
use stellar_tipz.Base.Int.{ℤ}
use stellar_tipz.Base.Text.{String, str_eq}
use stellar_tipz.Indexer.Value.{Value, Number, Interval}

pub data TipStatus : Type 0 where
  confirmed pending refunded : TipStatus

pub record Tip : Type 0 where
  pub id : ℕ
  pub tx_hash : String
  pub ledger : ℕ
  pub from_address : String
  pub to_address : String
  pub amount_stroops : ℤ
  pub message : Option String
  pub status : TipStatus

pub record Refund : Type 0 where
  pub amount : ℤ
  pub reason : String
  pub tx_hash : String
  pub status : String

pub record User : Type 0 where
  pub id : ℕ
  pub username : Option String

pub data GoalStatus : Type 0 where
  active completed cancelled expired : GoalStatus

pub record Goal : Type 0 where
  pub title : String
  pub target_stroops : ℤ
  pub raised_stroops : ℤ
  pub deadline : Option ℤ
  pub status : GoalStatus
  pub version : ℕ

pub data SubscriptionStatus : Type 0 where
  active paused cancelled expired past_due failed : SubscriptionStatus

pub record Subscription : Type 0 where
  pub amount_stroops : ℤ
  pub interval : Interval
  pub next_charge_at : ℤ
  pub status : SubscriptionStatus
  pub pending_amount : Option ℤ
  pub pending_interval : Option Interval
  pub change_effective_at : Option ℤ
  pub charge_failure_count : ℕ
  pub dunning_started_at : Option ℤ
  pub next_charge_retry_at : Option ℤ
  pub last_failure_reason : Option String
  pub charge_attempt_started_at : Option ℤ

pub data NotificationKind : Type 0 where
  tip_received goal_reached subscription_charged : NotificationKind

pub record Notification : Type 0 where
  pub user_id : ℕ
  pub kind : NotificationKind
  pub amount : ℤ

pub record Preference : Type 0 where
  pub wants : NotificationKind → Bool
  pub batching_enabled : Bool
  pub window_seconds : ℕ

pub record Batch : Type 0 where
  pub count : ℕ
  pub total_stroops : ℤ

-- The unique key of an event log row.
pub record EventKey : Type 0 where
  pub tx_hash : String
  pub topic : String
  pub ledger : ℕ

abbrev pub same_event : EventKey → EventKey → Bool
same_event a b = str_eq a.tx_hash b.tx_hash && str_eq a.topic b.topic && a.ledger == b.ledger

-- A processed ledger of a topic with the hash that it had then.
pub record Checkpoint : Type 0 where
  pub ledger : ℕ
  pub ledger_hash : String

-- The tables, the messages that were sent, and the faults that the next calls meet. A refund
-- stands under the transaction hash of its tip, which is as unique as the tip's id; a topic's
-- checkpoints stand in descending order of their ledgers.
pub record World : Type 0 where
  pub faults : List Bool
  pub next_id : ℕ
  pub event_log : EventKey → Option Value
  pub tips : String → Option Tip
  pub refunds : String → Option Refund
  pub users : String → Option User
  pub goals : ℕ → Option Goal
  pub subscriptions : ℕ → ℕ → Option Subscription
  pub credit_scores : ℕ → Option Number
  pub credit_history : ℕ → ℕ → Option Number
  pub preferences : ℕ → Option Preference
  pub batches : ℕ → ℕ → Option Batch
  pub notifications : List Notification
  pub published : List EventKey
  pub unknown_events : ℕ
  pub cursors : String → Option ℕ
  pub checkpoints : String → List Checkpoint

-- A row written under its key.
abbrev pub at_text {ℓ} : {A : Type ℓ} → String → A → (String → Option A) → String → Option A
at_text k v table j = if str_eq k j then some v else table j

abbrev pub at_id {ℓ} : {A : Type ℓ} → ℕ → A → (ℕ → Option A) → ℕ → Option A
at_id k v table j = if k == j then some v else table j

abbrev pub at_pair {ℓ} : {A : Type ℓ} → ℕ → ℕ → A → (ℕ → ℕ → Option A) → ℕ → ℕ → Option A
at_pair k l v table i j = if (k == i) && (l == j) then some v else table i j

abbrev pub at_event {ℓ} : {A : Type ℓ} → EventKey → A → (EventKey → Option A) → EventKey → Option A
at_event k v table j = if same_event k j then some v else table j

abbrev pub at_checkpoints :
    String → List Checkpoint → (String → List Checkpoint) → String → List Checkpoint
at_checkpoints k v table j = if str_eq k j then v else table j

pub data Failure : Type 0 where
  database_down unique_violation invalid_amount rpc_down projection_failed : Failure

pub data Result {ℓ} (A : Type ℓ) : Type ℓ where
  ok : A → Result A
  thrown : Failure → Result A

abbrev pub Exec : Type 0 → Type 0
Exec A = World → Result A × World

-- What follows a step that has returned or thrown.
unfoldable pub after : {A B : Type 0} → Result A → (A → Exec B) → Exec B
after (ok a) f w = f a w
after (thrown e) f w = (thrown e, w)

infixl 5 ◌>>=◌ ◌>>◌
unfoldable pub ◌>>=◌ : {A B : Type 0} → Exec A → (A → Exec B) → Exec B
unfolding after
◌>>=◌ m f w = let (r, w') = m w in after r f w'

unfoldable pub ◌>>◌ : {A B : Type 0} → Exec A → Exec B → Exec B
unfolding ◌>>=◌
m >> k = m >>= λ _. k

unfoldable pub return : {A : Type 0} → A → Exec A
return a w = (ok a, w)

unfoldable pub throw : {A : Type 0} → Failure → Exec A
throw e w = (thrown e, w)

-- A step that is no call of the database: a log line, a metric, a message.
unfoldable pub locally : (World → World) → Exec (Unit {0})
locally f w = (ok tt, f w)

abbrev pub answered : {A : Type 0} → A × World → Result A × World
answered (a, w) = (ok a, w)

-- A call under the faults to come: it fails, or it reads and changes.
unfoldable pub call_under : {A : Type 0} → List Bool → (World → A × World) → Exec A
call_under [] f w = answered (f w)
call_under (true ∷ rest) f w = (thrown database_down, record w { faults = rest })
call_under (false ∷ rest) f w = answered (f (record w { faults = rest }))

-- One call of the database: what it reads and the change that it makes, or a failure.
unfoldable pub call : {A : Type 0} → (World → A × World) → Exec A
unfolding call_under
call f w = call_under w.faults f w

unfoldable pub query : {A : Type 0} → (World → A) → Exec A
unfolding call
query g = call (λ w. (g w, w))

unfoldable pub write : (World → World) → Exec (Unit {0})
unfolding call
write f = call (λ w. (tt, f w))

-- The world before, with the faults that are left.
abbrev pub undone : World → World → World
undone before w = record before { faults = w.faults }

abbrev pub commit_as : {A : Type 0} → World → A → Result (Unit {0}) × World → Result A × World
commit_as before a (ok _, w) = (ok a, w)
commit_as before a (thrown e, w) = (thrown e, undone before w)

-- The end of a transaction that began in `before`: the commit is one more call.
unfoldable pub commit : {A : Type 0} → World → Result A → Exec A
unfolding call
commit before (thrown e) w = (thrown e, undone before w)
commit before (ok a) w = commit_as before a (call (λ w'. (tt, w')) w)

-- `prisma.$transaction(m)`: a throw inside, or a failure of the commit, undoes every write.
unfoldable pub transaction : {A : Type 0} → Exec A → Exec A
unfolding commit
transaction m w = let (r, w') = m w in commit w r w'

unfoldable pub handle : {A : Type 0} → Result A → (Failure → Exec A) → Exec A
handle (ok a) handler w = (ok a, w)
handle (thrown e) handler w = handler e w

-- `m.catch(handler)`
unfoldable pub catching : {A : Type 0} → Exec A → (Failure → Exec A) → Exec A
unfolding handle
catching m handler w = let (r, w') = m w in handle r handler w'
