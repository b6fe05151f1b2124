-- ===== src/Indexer/Chain/Tests.antt =====
-- The window of checkpoints at a concrete input.
use stellar_tipz.Base.{◌≡◌, List, [], ◌∷◌, arith, take}
use stellar_tipz.Indexer.State.{Checkpoint}
use stellar_tipz.Indexer.Chain.{delete_listed, stale_rows}
use stellar_tipz.Indexer.Chain.Window.{Below, delete_stale_keeps_newest}

abbrev three : List Checkpoint
three =
    record { ledger = 9; ledger_hash = "c" }
    ∷ record { ledger = 8; ledger_hash = "b" }
    ∷ record { ledger = 5; ledger_hash = "a" }
    ∷ []

three-Below : Below 10 three
unfolding Below
three-Below = (omega arith, (omega arith, (omega arith, tt)))

delete_stale_keeps_newest_example : delete_listed (stale_rows 2 three) three ≡ take 2 three
delete_stale_keeps_newest_example = delete_stale_keeps_newest 2 10 three three-Below (omega arith)
