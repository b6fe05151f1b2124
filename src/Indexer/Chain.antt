-- ===== src/Indexer/Chain.antt =====
-- How far the indexer has come: the cursors (backend/src/indexer/cursor.ts) and the hashes of the
-- ledgers that it has processed (backend/src/indexer/ledger-checkpoint.store.ts).
pub mod Window
mod Tests
use stellar_tipz.Base.{
  ℕ, ◌≡◌, Bool, true, false, not, Option, none, some, List, [], ◌∷◌, ltb, leb, ◌==◌, filter, take,
  drop, if◌then◌else◌,
}
use stellar_tipz.Base.Text.{String}
use stellar_tipz.Indexer.State.{
  World, Checkpoint, Exec, ◌>>=◌, ◌>>◌, return, query, write, at_text, at_checkpoints,
}

unfoldable pub get_cursor_ledger : String → Exec (Option ℕ)
get_cursor_ledger topic = query (λ w. w.cursors topic)

abbrev pub put_cursor : String → ℕ → World → World
put_cursor topic ledger w = record w { cursors = at_text topic ledger w.cursors }

unfoldable pub set_cursor_ledger : String → ℕ → Exec (Unit {0})
set_cursor_ledger topic ledger = write (put_cursor topic ledger)

-- The upsert under the key (topic, ledger), in descending order of the ledgers.
unfoldable pub upsert_checkpoint : Checkpoint → List Checkpoint → List Checkpoint
upsert_checkpoint cp [] = cp ∷ []
upsert_checkpoint cp (c ∷ cs) =
    let rest = upsert_checkpoint cp cs in
    if c.ledger == cp.ledger
    then cp ∷ cs
    else if ltb c.ledger cp.ledger
    then cp ∷ c ∷ cs
    else c ∷ rest

abbrev pub change_checkpoints : String → (List Checkpoint → List Checkpoint) → World → World
change_checkpoints topic f w = record w {
  checkpoints = at_checkpoints topic (f (w.checkpoints topic)) w.checkpoints;
}

unfoldable pub get_recent_checkpoints : String → ℕ → Exec (List Checkpoint)
get_recent_checkpoints topic limit = query (λ w. take limit (w.checkpoints topic))

-- `ledger: { in: stale.map((r) => r.ledger) }`
unfoldable pub is_listed : ℕ → List Checkpoint → Bool
is_listed ledger [] = false
is_listed ledger (c ∷ cs) =
    let rest = is_listed ledger cs in if c.ledger == ledger then true else rest

abbrev pub delete_listed : List Checkpoint → List Checkpoint → List Checkpoint
delete_listed stale = filter (λ c. not (is_listed c.ledger stale))

-- At most 1000 rows beyond the first `keep`.
unfoldable pub stale_rows : ℕ → List Checkpoint → List Checkpoint
stale_rows keep cs = take 1000 (drop keep cs)

unfoldable pub delete_stale : String → List Checkpoint → Exec (Unit {0})
unfolding is_listed
delete_stale topic [] = return tt
delete_stale topic (c ∷ cs) = write (change_checkpoints topic (delete_listed (c ∷ cs)))

unfoldable pub prune_checkpoints : String → ℕ → Exec (Unit {0})
unfolding stale_rows delete_stale
prune_checkpoints topic keep = do
  stale ← query (λ w. stale_rows keep (w.checkpoints topic))
  delete_stale topic stale

unfoldable pub record_checkpoint : String → ℕ → String → ℕ → Exec (Unit {0})
unfolding upsert_checkpoint prune_checkpoints
record_checkpoint topic ledger hash keep = do
  write (
      change_checkpoints topic (upsert_checkpoint (record { ledger = ledger; ledger_hash = hash })))
  prune_checkpoints topic keep

abbrev pub up_to : ℕ → List Checkpoint → List Checkpoint
up_to ledger = filter (λ c. leb c.ledger ledger)

unfoldable pub delete_checkpoints_above : String → ℕ → Exec (Unit {0})
delete_checkpoints_above topic ledger = write (change_checkpoints topic (up_to ledger))
