-- ===== src/Indexer/Reorg.antt =====
-- Reorganizations of the chain (backend/src/indexer/reorg.ts): the search for the fork and the
-- rollback to it. `get_hash` is `getLedgerHash`, a request to Horizon: it fails, finds no such
-- ledger, or finds its hash. The counts of deleted rows, which are only logged, are left out.
pub mod Search
pub mod Rollback
mod Tests
use stellar_tipz.Base.{
  ℕ, ◌-◌, ◌≡◌, Bool, true, false, Option, none, some, List, [], ◌∷◌, leb, ◌==◌, when_some,
  if◌then◌else◌,
}
use stellar_tipz.Base.Text.{String, str_eq}
use stellar_tipz.Indexer.State.{
  World, Tip, Refund, Checkpoint, EventKey, Failure, rpc_down, Result, ok, thrown, Exec, ◌>>=◌,
  ◌>>◌, return, throw, write, transaction,
}
use stellar_tipz.Indexer.Chain.{get_recent_checkpoints, delete_checkpoints_above, set_cursor_ledger}

pub data Lookup : Type 0 where
  failed absent : Lookup
  found : String → Lookup

pub record ReorgDetection : Type 0 where
  pub reorged : Bool
  pub fork_ledger : Option ℕ
  pub diverged_at : Option ℕ

-- `if (divergedAt === null) divergedAt = cp.ledger`
abbrev pub first_diverged : Option ℕ → ℕ → ℕ
first_diverged none ledger = ledger
first_diverged (some d) ledger = d

-- `checkpoints[checkpoints.length - 1]?.ledger ?? divergedAt`
unfoldable pub oldest_ledger : ℕ → List Checkpoint → ℕ
oldest_ledger d [] = d
oldest_ledger d (c ∷ cs) = oldest_ledger c.ledger cs

-- No checkpoint matches.
unfoldable pub no_fork : List Checkpoint → Option ℕ → ReorgDetection
unfolding oldest_ledger
no_fork all none = record { reorged = false; fork_ledger = none; diverged_at = none }
no_fork all (some d) = record {
  reorged = true;
  fork_ledger = some (oldest_ledger d all - 1);
  diverged_at = some d;
}

abbrev pub has_diverged : Option ℕ → Bool
has_diverged none = false
has_diverged (some d) = true

unfoldable pub detect_loop :
    (ℕ → Lookup) → List Checkpoint → Option ℕ → List Checkpoint → Result ReorgDetection
unfolding no_fork
detect_loop get_hash all diverged [] = ok (no_fork all diverged)
detect_loop get_hash all diverged (c ∷ cs) = elim (get_hash c.ledger) [
  | failed ↦ thrown rpc_down
  | absent ↦ detect_loop get_hash all diverged cs
  | found hash ↦ elim (str_eq hash c.ledger_hash) [
    | true ↦ ok (record {
      reorged = has_diverged diverged;
      fork_ledger = some c.ledger;
      diverged_at = diverged;
    })
    | false ↦ detect_loop get_hash all (some (first_diverged diverged c.ledger)) cs
  ]
]

unfoldable pub detect_reorg : List Checkpoint → (ℕ → Lookup) → Result ReorgDetection
unfolding detect_loop
detect_reorg checkpoints get_hash = detect_loop get_hash checkpoints none checkpoints

-- `where: { tip: { ledger: { gt: forkLedger } } }`: is the tip one of them?
abbrev pub is_above : ℕ → Option Tip → Bool
is_above fork none = false
is_above fork (some t) = if leb t.ledger fork then false else true

abbrev pub delete_refunds : ℕ → World → World
delete_refunds fork w = record w {
  refunds = λ h. if is_above fork (w.tips h) then none else w.refunds h;
}

abbrev pub delete_tips : ℕ → World → World
delete_tips fork w = record w { tips = λ h. if is_above fork (w.tips h) then none else w.tips h }

abbrev pub delete_events : ℕ → World → World
delete_events fork w = record w {
  event_log = λ k. if leb k.ledger fork then w.event_log k else none;
}

unfoldable pub rollback_to_ledger : String → ℕ → Exec (Unit {0})
rollback_to_ledger topic fork = transaction (do
  write (delete_refunds fork)
  write (delete_tips fork)
  write (delete_events fork)
  delete_checkpoints_above topic fork
  set_cursor_ledger topic fork)

-- What is done once the search has returned.
unfoldable pub handle_detection : String → ReorgDetection → Exec Bool
unfolding rollback_to_ledger
handle_detection topic d =
    if d.reorged
    then when_some d.fork_ledger (return false)
        (λ fork. do rollback_to_ledger topic fork; return true)
    else return false

abbrev pub run_detection : String → Result ReorgDetection → Exec Bool
run_detection topic (ok d) = handle_detection topic d
run_detection topic (thrown e) = throw e

unfoldable pub handle_checkpoints : String → (ℕ → Lookup) → List Checkpoint → Exec Bool
unfolding detect_reorg
handle_checkpoints topic get_hash [] = return false
handle_checkpoints topic get_hash (c ∷ cs) = run_detection topic (detect_reorg (c ∷ cs) get_hash)

-- `lookback` is `config.indexer.reorgLookback`.
unfoldable pub check_and_handle_reorg : ℕ → (ℕ → Lookup) → String → Exec Bool
unfolding handle_checkpoints
check_and_handle_reorg lookback get_hash topic = if lookback == 0 then return false else (do
  checkpoints ← get_recent_checkpoints topic lookback
  handle_checkpoints topic get_hash checkpoints)
