-- ===== src/Indexer/Projections/Scores.antt =====
-- Credit scores: `projectCreditScoreUpdated`.
use stellar_tipz.Base.{when_some, ℕ, none, some}
use stellar_tipz.Indexer.Value.{Number, Event, arg, tuple_args, as_text, to_number}
use stellar_tipz.Indexer.State.{World, Exec, ◌>>=◌, ◌>>◌, write, transaction, at_id, at_pair}
use stellar_tipz.Indexer.Projections.Users.{ensure_user_id, warn_unparseable}

-- The history row of a user and a ledger is written once.
unfoldable pub append_history : ℕ → ℕ → Number → World → World
append_history user ledger value w = elim (w.credit_history user ledger) [
  | some v ↦ w
  | none ↦ record w { credit_history = at_pair user ledger value w.credit_history }
]

unfoldable pub write_score : ℕ → ℕ → Number → Exec (Unit {0})
unfolding append_history
write_score user ledger value = do
  write λ w. record w { credit_scores = at_id user value w.credit_scores }
  write (append_history user ledger value)

unfoldable pub project_credit_score_updated : Event → Exec (Unit {0})
unfolding write_score
project_credit_score_updated e =
    let args = tuple_args e.value in
    when_some (as_text (arg 0 args)) warn_unparseable (λ creator.
      when_some (to_number (arg 2 args)) warn_unparseable
        (λ value. do user ← ensure_user_id creator; transaction (write_score user e.ledger value)))
