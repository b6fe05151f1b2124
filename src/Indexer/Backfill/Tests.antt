-- ===== src/Indexer/Backfill/Tests.antt =====
-- A backfill of a chain whose second page has an event too.
use stellar_tipz.Base.{◌≡◌, refl, false, none, some, [], ◌∷◌, arith}
use stellar_tipz.Indexer.State.{◌>>=◌}
use stellar_tipz.Indexer.Samples.{empty, created}
use stellar_tipz.Indexer.Backfill.{
  BackfillRpc, first_backfill, backfill_events, finish_backfill, backfill_range,
}
use stellar_tipz.Indexer.Backfill.Pages.{first_page_only}

abbrev rpc : BackfillRpc
rpc = record { latest = some 30; page = λ p start token. some (created ∷ [], 30) }

first_page_only_example :
    backfill_range rpc (λ p e. 100) false none 5 20 4 empty
    ≡ (do
      b ←
          backfill_events false 20
            (λ e. 100)
            (created ∷ [])
            (record (first_backfill 5) { last_covered = 20 })
      finish_backfill false 5 20 b)
        empty
first_page_only_example =
    first_page_only rpc (λ p e. 100) false none 5 20 30 3 (created ∷ []) empty (omega arith)
      (omega arith) (omega arith) refl
