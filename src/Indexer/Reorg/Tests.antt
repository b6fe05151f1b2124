-- ===== src/Indexer/Reorg/Tests.antt =====
-- Runs of the search and of the rollback, and the theorems at concrete inputs.
use stellar_tipz.Base.{
  ℕ, ◌≡◌, ◌⊎◌, refl, true, false, none, some, List, [], ◌∷◌, arith, ◌==◌, if◌then◌else◌,
}
use stellar_tipz.Indexer.State.{World, Checkpoint, ok, thrown, database_down}
use stellar_tipz.Indexer.Samples.{empty}
use stellar_tipz.Indexer.Chain.Window.{Below}
use stellar_tipz.Indexer.Reorg.{
  Lookup, absent, found, detect_loop, no_fork, oldest_ledger, detect_reorg, rollback_to_ledger,
}
use stellar_tipz.Indexer.Reorg.Search.{Outcome, detect_reorg-Outcome}
use stellar_tipz.Indexer.Reorg.Rollback.{RolledBack, rollback_all_or_nothing}

abbrev stored : List Checkpoint
stored =
    record { ledger = 9; ledger_hash = "c" }
    ∷ record { ledger = 8; ledger_hash = "b" }
    ∷ record { ledger = 5; ledger_hash = "a" }
    ∷ []

-- The chain now: ledger 9 has another hash, 8 is not to be found.
abbrev chain : ℕ → Lookup
chain ledger = if ledger == 9 then found "d" else if ledger == 8 then absent else found "a"

fork_at_five :
    detect_reorg stored chain
    ≡ ok (record { reorged = true; fork_ledger = some 5; diverged_at = some 9 })
unfolding detect_reorg detect_loop
fork_at_five = refl

all_diverged :
    detect_reorg stored (λ l. found "z")
    ≡ ok (record { reorged = true; fork_ledger = some 4; diverged_at = some 9 })
unfolding detect_reorg detect_loop no_fork oldest_ledger
all_diverged = refl

stored-Below : Below 10 stored
unfolding Below
stored-Below = (omega arith, (omega arith, (omega arith, tt)))

detect_reorg-Outcome_example : Outcome chain none stored (detect_reorg stored chain)
detect_reorg-Outcome_example = detect_reorg-Outcome chain 10 stored stored-Below

abbrev failing : World
failing = record empty { faults = false ∷ true ∷ [] }

rollback_all_or_nothing_example :
    let (r, v) = rollback_to_ledger "tip_events" 5 failing in
    ((r ≡ ok tt) × RolledBack "tip_events" 5 failing v)
    ⊎ ((r ≡ thrown database_down) × (v ≡ record failing { faults = v.faults }))
rollback_all_or_nothing_example = rollback_all_or_nothing "tip_events" 5 failing
