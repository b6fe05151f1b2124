-- ===== src/Indexer/Poller.antt =====
-- One poll of the indexer (backend/src/indexer/poller.ts).
pub mod Progress
pub mod Pages
pub mod Outcome
pub mod Cap
mod Tests
use stellar_tipz.Base.{
  ℕ, zero, suc, ◌+◌, ◌-◌, ◌≡◌, max, Bool, true, false, ◌&&◌, ◌||◌, Option, none, some, List, [],
  ◌∷◌, ltb, leb, ◌==◌, every, when_some, if◌then◌else◌,
}
use stellar_tipz.Base.Text.{String, str_eq}
use stellar_tipz.Indexer.Value.{Event}
use stellar_tipz.Indexer.State.{
  World, Exec, ◌>>=◌, ◌>>◌, return, throw, catching, Failure, rpc_down, projection_failed,
}
use stellar_tipz.Indexer.Projections.{project_event}
use stellar_tipz.Indexer.Chain.{get_cursor_ledger, set_cursor_ledger, record_checkpoint}
use stellar_tipz.Indexer.Reorg.{Lookup, failed, absent, found, check_and_handle_reorg}

-- What the RPC servers answer during one poll: the head of the chain when it is asked for the start
-- and for the ceiling, the page of events number `p` that is asked for, from a ledger or after a
-- paging token, and the hash of a ledger. `none` is a request that fails.
pub record Rpc : Type 0 where
  pub start_head : Option ℕ
  pub head : Option ℕ
  pub page : ℕ → ℕ → Option String → Option (List Event)
  pub ledger_hash : ℕ → Lookup

-- The part of `config.indexer` that a poll reads. A start ledger of 0 is none; a negative depth
-- counts as 0.
pub record Config : Type 0 where
  pub start_ledger : Option ℕ
  pub finality_depth : ℕ
  pub reorg_lookback : ℕ

abbrev pub cursor_topic : String
cursor_topic = "tip_events"

abbrev pub max_pages_per_tick : ℕ
max_pages_per_tick = 50

-- The start where there is no cursor. A head below the depth would be negative in the source; the
-- maximum with 1 is the same.
unfoldable pub first_start : Config → Rpc → Exec ℕ
first_start c rpc =
    when_some c.start_ledger
      (when_some rpc.start_head (throw rpc_down) (λ head. return (max 1 (head - c.finality_depth))))
      (λ ledger. return ledger)

unfoldable pub resolve_start_ledger : Config → Rpc → Exec ℕ
unfolding first_start
resolve_start_ledger c rpc = do
  cursor ← get_cursor_ledger cursor_topic
  when_some cursor (first_start c rpc) (λ ledger. return (ledger + 1))

-- The variables of the loop over the pages.
pub record Tick : Type 0 where
  pub paging_token : Option String
  pub processed : ℕ
  pub skipped_unfinalized : ℕ
  pub any_failed : Bool
  pub max_finalized : ℕ

abbrev pub first_tick : ℕ → Tick
first_tick start = record {
  paging_token = none;
  processed = 0;
  skipped_unfinalized = 0;
  any_failed = false;
  max_finalized = start - 1;
}

abbrev pub skipped : Tick → Tick
skipped t = record t { skipped_unfinalized = t.skipped_unfinalized + 1 }

abbrev pub projected : Event → Tick → Tick
projected e t = record t {
  paging_token = some e.paging_token;
  processed = t.processed + 1;
  max_finalized = max t.max_finalized e.ledger;
}

abbrev pub with_failure : Tick → Tick
with_failure t = record t { any_failed = true }

-- One event of a page.
unfoldable pub poll_event : ℕ → ℕ → Event → Tick → Exec Tick
poll_event ceiling now e t =
    if ltb ceiling e.ledger
    then return (skipped t)
    else catching (do project_event e now; return (projected e t)) (λ x. return (with_failure t))

unfoldable pub poll_page : ℕ → (Event → ℕ) → List Event → Tick → Exec Tick
unfolding poll_event
poll_page ceiling clock [] t = return t
poll_page ceiling clock (e ∷ es) t = do
  t' ← poll_event ceiling (clock e) e t
  poll_page ceiling clock es t'

abbrev pub is_nil : List Event → Bool
is_nil [] = true
is_nil (e ∷ es) = false

-- Is the loop left after this page?
unfoldable pub is_last : ℕ → List Event → Tick → Bool
is_last ceiling es t =
    is_nil es
    || ltb 0 t.skipped_unfinalized && t.processed == 0 && every (λ e. ltb ceiling e.ledger) es

-- The loop, with the number of pages that are left and that of the next one. `clock p e` is the
-- time at which the event `e` of page `p` is projected.
unfoldable pub read_pages : Rpc → (ℕ → Event → ℕ) → ℕ → ℕ → ℕ → ℕ → Tick → Exec Tick
unfolding poll_page is_last
read_pages rpc clock ceiling start zero p t = return t
read_pages rpc clock ceiling start (suc left) p t =
    when_some (rpc.page p start t.paging_token) (throw rpc_down) (λ es. do
      t' ← poll_page ceiling (clock p) es t
      elim (is_last ceiling es t') [
        | true ↦ return t'
        | false ↦ read_pages rpc clock ceiling start left (p + 1) t'
      ])

-- An empty hash is none.
unfoldable pub record_hash : Config → ℕ → Lookup → Exec (Unit {0})
record_hash c ledger failed = throw rpc_down
record_hash c ledger absent = return tt
record_hash c ledger (found hash) =
    if str_eq hash ""
    then return tt
    else record_checkpoint cursor_topic ledger hash c.reorg_lookback

-- After the pages: the failure, or the cursor and the checkpoint.
unfoldable pub finish_tick : Config → Rpc → ℕ → Tick → Exec (Unit {0})
unfolding record_hash
finish_tick c rpc ceiling t =
    let next = max t.max_finalized ceiling in
    if t.any_failed then throw projection_failed else (do
      set_cursor_ledger cursor_topic next
      catching (record_hash c next (rpc.ledger_hash next)) (λ x. return tt))

unfoldable pub run_tick : Config → Rpc → (ℕ → Event → ℕ) → ℕ → ℕ → Exec (Unit {0})
unfolding read_pages finish_tick
run_tick c rpc clock start head =
    let ceiling = head - c.finality_depth in
    if ltb ceiling start then return tt else (do
      t ← read_pages rpc clock ceiling start max_pages_per_tick 0 (first_tick start)
      finish_tick c rpc ceiling t)

-- A poll without a reorganization.
unfoldable pub poll_forward : Config → Rpc → (ℕ → Event → ℕ) → Exec (Unit {0})
unfolding resolve_start_ledger run_tick
poll_forward c rpc clock = do
  start ← resolve_start_ledger c rpc
  when_some rpc.head (throw rpc_down) (λ head. run_tick c rpc clock start head)

unfoldable pub poll_once : Config → Rpc → (ℕ → Event → ℕ) → Exec (Unit {0})
unfolding poll_forward
poll_once c rpc clock = do
  handled ← check_and_handle_reorg c.reorg_lookback rpc.ledger_hash cursor_topic
  if handled then return tt else poll_forward c rpc clock
