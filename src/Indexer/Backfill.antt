-- ===== src/Indexer/Backfill.antt =====
-- The backfill of a range of ledgers (backend/src/indexer/backfill.ts). The loop over the pages has no
-- bound in the source: the fuel is the number of pages at which the run is looked at. Ledgers are positive.
pub mod Pages
mod Tests
use stellar_tipz.Base.{
  ℕ, zero, suc, ◌+◌, ◌-◌, max, min, Bool, true, false, Option, none, some, List, [], ◌∷◌, ltb,
  when_some, if◌then◌else◌,
}
use stellar_tipz.Base.Text.{String, str_eq}
use stellar_tipz.Indexer.Value.{Event}
use stellar_tipz.Indexer.State.{Exec, ◌>>=◌, ◌>>◌, return, throw, catching, Failure, rpc_down}
use stellar_tipz.Indexer.Projections.{project_event}
use stellar_tipz.Indexer.Chain.{get_cursor_ledger, set_cursor_ledger}

abbrev pub backfill_cursor_topic : String
backfill_cursor_topic = "backfill_tip_events"

pub record BackfillOptions : Type 0 where
  pub from_ledger : Option ℕ
  pub to_ledger : Option ℕ
  pub dry_run : Bool
  pub force : Bool

pub record BackfillReport : Type 0 where
  pub from_ledger : ℕ
  pub to_ledger : ℕ
  pub events_projected : ℕ
  pub events_skipped : ℕ
  pub events_failed : ℕ
  pub new_cursor_ledger : ℕ

-- What the RPC answers: the head, and page number `p` from a ledger or after a token, with the latest
-- ledger that the server knows. `none` is a request that fails.
pub record BackfillRpc : Type 0 where
  pub latest : Option ℕ
  pub page : ℕ → ℕ → Option String → Option (List Event × ℕ)

-- The variables of the loop.
pub record Backfill : Type 0 where
  pub by_topic : String → ℕ
  pub failed_hashes : List String
  pub projected : ℕ
  pub skipped : ℕ
  pub failed : ℕ
  pub last_covered : ℕ
  pub paging_token : Option String

abbrev pub first_backfill : ℕ → Backfill
first_backfill start = record {
  by_topic = λ topic. 0;
  failed_hashes = [];
  projected = 0;
  skipped = 0;
  failed = 0;
  last_covered = start - 1;
  paging_token = none;
}

abbrev pub with_event : Event → Backfill → Backfill
with_event e b = record b {
  by_topic = λ topic. if str_eq topic e.topic then b.by_topic topic + 1 else b.by_topic topic;
  projected = b.projected + 1;
}

abbrev pub with_failed : Event → Backfill → Backfill
with_failed e b = record b { failed = b.failed + 1; failed_hashes = e.tx_hash ∷ b.failed_hashes }

abbrev pub past_event : Event → Backfill → Backfill
past_event e b = record b { paging_token = some e.paging_token }

-- One event. A skipped one and one of a dry run leave the paging token.
unfoldable pub backfill_event : Bool → ℕ → ℕ → Event → Backfill → Exec Backfill
backfill_event dry last now e b =
    if ltb last e.ledger
    then return (record b { skipped = b.skipped + 1 })
    else if dry
    then return (with_event e b)
    else catching (do project_event e now; return (past_event e (with_event e b)))
        (λ x. return (past_event e (with_failed e b)))

unfoldable pub backfill_events : Bool → ℕ → (Event → ℕ) → List Event → Backfill → Exec Backfill
unfolding backfill_event
backfill_events dry last clock [] b = return b
backfill_events dry last clock (e ∷ es) b = do
  b' ← backfill_event dry last (clock e) e b
  backfill_events dry last clock es b'

abbrev pub no_events : List Event → Bool
no_events [] = true
no_events (e ∷ es) = false

abbrev pub cover : ℕ → ℕ → Backfill → Backfill
cover last latest b = record b { last_covered = min (max b.last_covered latest) last }

unfoldable pub backfill_pages :
    BackfillRpc → (ℕ → Event → ℕ) → Bool → ℕ → ℕ → ℕ → ℕ → Backfill → Exec Backfill
unfolding backfill_events
backfill_pages rpc clock dry start last zero p b = return b
backfill_pages rpc clock dry start last (suc left) p b =
    if ltb b.last_covered last
    then when_some (rpc.page p start b.paging_token) (throw rpc_down) (λ (es, latest). do
      b' ← backfill_events dry last (clock p) es (cover last latest b)
      elim (no_events es) [
        | true ↦ return b'
        | false ↦ backfill_pages rpc clock dry start last left (p + 1) b'
      ])
    else return b

-- The cursor and the report after the pages.
unfoldable pub finish_backfill : Bool → ℕ → ℕ → Backfill → Exec BackfillReport
finish_backfill dry start last b =
    let report : BackfillReport = record {
      from_ledger = start;
      to_ledger = last;
      events_projected = b.projected;
      events_skipped = b.skipped;
      events_failed = b.failed;
      new_cursor_ledger = max (start - 1) b.last_covered;
    } in
    if dry
    then return report
    else (do set_cursor_ledger backfill_cursor_topic report.new_cursor_ledger; return report)

-- A range; an empty one has no work.
unfoldable pub backfill_range :
    BackfillRpc → (ℕ → Event → ℕ) → Bool → Option ℕ → ℕ → ℕ → ℕ → Exec BackfillReport
unfolding backfill_pages finish_backfill
backfill_range rpc clock dry stored start last fuel =
    if ltb last start
    then return (record {
      from_ledger = start;
      to_ledger = last;
      events_projected = 0;
      events_skipped = 0;
      events_failed = 0;
      new_cursor_ledger = when_some stored last (λ ledger. ledger);
    })
    else (do
      b ← backfill_pages rpc clock dry start last fuel 0 (first_backfill start)
      finish_backfill dry start last b)

unfoldable pub stored_cursor : Bool → Exec (Option ℕ)
stored_cursor force = if force then return none else get_cursor_ledger backfill_cursor_topic

unfoldable pub run_backfill :
    Option ℕ → BackfillOptions → BackfillRpc → (ℕ → Event → ℕ) → ℕ → Exec BackfillReport
unfolding backfill_range stored_cursor
run_backfill start_ledger options rpc clock fuel = do
  stored ← stored_cursor options.force
  when_some rpc.latest (throw rpc_down) (λ head.
      let start =
        when_some options.from_ledger
          (when_some stored (when_some start_ledger 1 (λ ledger. ledger)) (λ ledger. ledger + 1))
          (λ ledger. ledger) in
      let last = when_some options.to_ledger head (λ ledger. ledger) in
      backfill_range rpc clock options.dry_run stored start last fuel)
