-- ===== src/Indexer/Poller/Tests.antt =====
-- A poll of a small chain, and the theorems at concrete inputs.
use stellar_tipz.Base.{
  ℕ, ◌-◌, ◌≤◌, ◌<◌, ◌≡◌, Option, some, List, [], ◌∷◌, arith, All, ◌==◌, if◌then◌else◌,
}
use stellar_tipz.Base.Text.{String}
use stellar_tipz.Indexer.Value.{Event}
use stellar_tipz.Indexer.State.{Failure, ok, thrown}
use stellar_tipz.Indexer.Samples.{empty, created}
use stellar_tipz.Indexer.Reorg.{absent}
use stellar_tipz.Indexer.Poller.{
  Rpc, Config, first_tick, cursor_topic, max_pages_per_tick, run_tick,
}
use stellar_tipz.Indexer.Poller.Progress.{IsStored}
use stellar_tipz.Indexer.Poller.Pages.{fetched}
use stellar_tipz.Indexer.Poller.Outcome.{run_tick_outcome}

-- One page with one event.
abbrev rpc : Rpc
rpc = record {
  start_head = some 12;
  head = some 12;
  page = λ p start token. some (if p == 0 then created ∷ [] else []);
  ledger_hash = λ l. absent;
}

abbrev config : Config
config = record { start_ledger = some 6; finality_depth = 3; reorg_lookback = 0 }

run_tick_outcome_example :
    let (r, v) = run_tick config rpc (λ p e. 100) 6 12 empty in
    (12 - 3 < 6 → (r ≡ ok tt) × (v ≡ empty))
    × ((e : Failure) → 6 ≤ 12 - 3 → r ≡ thrown e → v.cursors ≡ empty.cursors)
    × (6 ≤ 12 - 3
        → r ≡ ok tt
        → (v.cursors cursor_topic ≡ some (12 - 3))
          × All
              (λ e. e.ledger ≤ 12 - 3 → IsStored e v)
              (fetched rpc (λ p e. 100) (12 - 3) 6 max_pages_per_tick 0 (first_tick 6) empty))
run_tick_outcome_example = run_tick_outcome config rpc (λ p e. 100) 6 12 empty

-- A chain that has one event more, on page 50.
abbrev longer : ℕ → ℕ → Option String → Option (List Event)
longer p start token = if p == 50 then some (created ∷ []) else rpc.page p start token

longer_starts_alike :
    (q : ℕ) (token : Option String) → q < 50 → longer q 6 token ≡ rpc.page q 6 token
longer_starts_alike q token lt = ground arith
