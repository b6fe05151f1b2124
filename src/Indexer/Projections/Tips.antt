-- ===== src/Indexer/Projections/Tips.antt =====
-- Tips and refunds: `projectTip` and `projectRefund`.
use stellar_tipz.Base.{when_some, ℕ, ◌+◌, Option, none, some}
use stellar_tipz.Base.Text.{String}
use stellar_tipz.Indexer.Value.{Event, ParsedTip, ParsedRefund, parse_tip, parse_refund}
use stellar_tipz.Indexer.State.{
  Tip, confirmed, refunded, tip_received, Exec, ◌>>=◌, ◌>>◌, return, throw, query, write,
  transaction, catching, Failure, database_down, unique_violation, invalid_amount, rpc_down,
  projection_failed, at_text,
}
use stellar_tipz.Indexer.Notify.{persist_notification}

abbrev pub tip_row : Event → ParsedTip → ℕ → Tip
tip_row e t id = record {
  id = id;
  tx_hash = e.tx_hash;
  ledger = e.ledger;
  from_address = t.from;
  to_address = t.to;
  amount_stroops = t.amount;
  message = t.message;
  status = confirmed;
}

unfoldable pub create_tip : Event → ParsedTip → Exec (Unit {0})
create_tip e t = write λ w. record w {
  next_id = w.next_id + 1;
  tips = at_text e.tx_hash (tip_row e t w.next_id) w.tips;
}

-- The receiver, if it is a user, is notified in the same transaction.
unfoldable pub notify_receiver : ParsedTip → ℕ → Exec (Unit {0})
notify_receiver t now = do
  receiver ← query (λ w. w.users t.to)
  when_some receiver (return tt) (λ u. persist_notification u.id tip_received t.amount now)

unfoldable pub create_tip_once : Event → ParsedTip → ℕ → Exec (Unit {0})
unfolding create_tip notify_receiver
create_tip_once e t now = do
  existing ← query (λ w. w.tips e.tx_hash)
  when_some existing (do create_tip e t; notify_receiver t now) (λ row. return tt)

-- A P2002 is a tip that another worker has just written.
abbrev pub ignore_duplicate : Failure → Exec (Unit {0})
ignore_duplicate unique_violation = return tt
ignore_duplicate database_down = throw database_down
ignore_duplicate invalid_amount = throw invalid_amount
ignore_duplicate rpc_down = throw rpc_down
ignore_duplicate projection_failed = throw projection_failed

unfoldable pub project_tip : Event → ℕ → Exec (Unit {0})
unfolding create_tip_once
project_tip e now =
    when_some (parse_tip e.value) (return tt)
      (λ t. catching (transaction (create_tip_once e t now)) ignore_duplicate)

abbrev pub reason_of : Option String → String
reason_of (some r) = r
reason_of none = ""

-- The two writes of a refund: the row under its tip, and the tip's status.
unfoldable pub write_refund : Event → ParsedRefund → Tip → Exec (Unit {0})
write_refund e r tip = do
  write λ w. record w {
    refunds =
        at_text tip.tx_hash
          (record {
            amount = r.amount;
            reason = reason_of r.reason;
            tx_hash = e.tx_hash;
            status = "completed";
          })
          w.refunds;
  }
  write λ w. record w { tips = at_text tip.tx_hash (record tip { status = refunded }) w.tips }

unfoldable pub refund_known_tip : Event → ParsedRefund → Exec (Unit {0})
unfolding write_refund
refund_known_tip e r = do
  found ← query (λ w. w.tips r.tip_tx_hash)
  when_some found (return tt) (λ tip. write_refund e r tip)

unfoldable pub project_refund : Event → Exec (Unit {0})
unfolding refund_known_tip
project_refund e =
    when_some (parse_refund e.value) (return tt) (λ r. transaction (refund_known_tip e r))
