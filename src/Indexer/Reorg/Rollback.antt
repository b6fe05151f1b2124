-- ===== src/Indexer/Reorg/Rollback.antt =====
-- The rollback: `rollbackToLedger` of backend/src/indexer/reorg.ts, under calls that may fail.
use stellar_tipz.Base.{
  ℕ, ◌≤◌, ◌<◌, ◌≡◌, ◌⊎◌, inl, inr, refl, sym, Bool, none, some, List, [], ◌∷◌, arith, All, leb,
  Bool-cases,
}
use mathlib.Core.Path.{subst}
use stellar_tipz.Base.Text.{String, eq_refl}
use stellar_tipz.Indexer.State.{World, Tip, Refund, Checkpoint, EventKey, ok, thrown, database_down}
use stellar_tipz.Indexer.Chain.{
  put_cursor, change_checkpoints, up_to, delete_checkpoints_above, set_cursor_ledger,
}
use stellar_tipz.Indexer.Reorg.{delete_refunds, delete_tips, delete_events, rollback_to_ledger}
use stellar_tipz.Indexer.Atomic.{AllOrNothing, write-Wrote, then-Wrote, transaction-AllOrNothing}

-- What the rollback to `fork` makes of a world, and what its later writes do.
abbrev move_back : String → ℕ → World → World
move_back topic fork w = put_cursor topic fork (change_checkpoints topic (up_to fork) w)

abbrev cut_events : String → ℕ → World → World
cut_events topic fork w = move_back topic fork (delete_events fork w)

abbrev cut_tips : String → ℕ → World → World
cut_tips topic fork w = cut_events topic fork (delete_tips fork w)

abbrev cut : String → ℕ → World → World
cut topic fork w = cut_tips topic fork (delete_refunds fork w)

rollback-AllOrNothing :
    (topic : String) (fork : ℕ) (w : World)
    → AllOrNothing (cut topic fork) w (rollback_to_ledger topic fork w)
unfolding rollback_to_ledger delete_checkpoints_above set_cursor_ledger
rollback-AllOrNothing topic fork = transaction-AllOrNothing (cut topic fork) _ (
    then-Wrote (delete_refunds fork) (cut_tips topic fork) _ _ (λ x fs. refl)
      (write-Wrote _ (λ x fs. refl))
      (then-Wrote (delete_tips fork) (cut_events topic fork) _ _ (λ x fs. refl)
        (write-Wrote _ (λ x fs. refl))
        (then-Wrote (delete_events fork) (move_back topic fork) _ _ (λ x fs. refl)
          (write-Wrote _ (λ x fs. refl))
          (then-Wrote (change_checkpoints topic (up_to fork)) (put_cursor topic fork) _ _
            (λ x fs. refl) (write-Wrote _ (λ x fs. refl)) (write-Wrote _ (λ x fs. refl))))))

-- Every refund has its tip: the foreign key.
pub HasTips : World → Type 0
HasTips w = (h : String) (r : Refund) → w.refunds h ≡ some r → (t : Tip) × (w.tips h ≡ some t)

-- A world after the rollback of `w`: exactly the tips and the stored events up to the fork are
-- left, as they were; so are the refunds of these tips, with what their rows say; every
-- refund still has its tip; the cursor is at the fork, and no checkpoint above it.
pub record RolledBack (topic : String) (fork : ℕ) (w v : World) : Type 0 where
  pub kept_tips : (h : String) (t : Tip) → w.tips h ≡ some t → t.ledger ≤ fork → v.tips h ≡ some t
  pub old_tips :
      (h : String) (t : Tip) → v.tips h ≡ some t → (w.tips h ≡ some t) × (t.ledger ≤ fork)
  pub kept_refunds :
      (h : String) (t : Tip) → w.tips h ≡ some t → t.ledger ≤ fork → v.refunds h ≡ w.refunds h
  pub owned : HasTips w → HasTips v
  pub kept_events : (k : EventKey) → k.ledger ≤ fork → v.event_log k ≡ w.event_log k
  pub no_events : (k : EventKey) → fork < k.ledger → v.event_log k ≡ none
  pub cursor : v.cursors topic ≡ some fork
  pub no_checkpoints : All (λ c. c.ledger ≤ fork) (v.checkpoints topic)

up_to_all : (fork : ℕ) (cs : List Checkpoint) → All (λ c. c.ledger ≤ fork) (up_to fork cs)
up_to_all fork [] = tt
up_to_all fork (c ∷ cs) = elim (Bool-cases (leb c.ledger fork)) [
  | inl p ↦ rw p (ground arith, up_to_all fork cs)
  | inr p ↦ rw p (up_to_all fork cs)
]

cut-HasTips : (topic : String) (fork : ℕ) (w : World) → HasTips w → HasTips (cut topic fork w)
unfolding HasTips
cut-HasTips topic fork w own h r e =
    let was : w.refunds h ≡ some r = ground arith in
    let (t, there) = own h r was in (t, ground arith)

cut-RolledBack :
    (topic : String) (fork : ℕ) (w : World) → RolledBack topic fork w (cut topic fork w)
cut-RolledBack topic fork w = record {
  kept_tips = λ h t e le. ground arith;
  old_tips = λ h t e. ground arith;
  kept_refunds = λ h t e le. ground arith;
  owned = cut-HasTips topic fork w;
  kept_events = λ k le. ground arith;
  no_events = λ k lt. ground arith;
  cursor = ground (arith, eq_refl topic);
  no_checkpoints = rw (eq_refl topic) (up_to_all fork (w.checkpoints topic));
}

forget :
    (topic : String) (fork : ℕ) (w : World) (faults : List Bool) (v : World)
    → RolledBack topic fork w v
    → RolledBack topic fork w (record v { faults = faults })
unfolding HasTips
forget topic fork w faults v h = record {
  kept_tips = h.kept_tips;
  old_tips = h.old_tips;
  kept_refunds = h.kept_refunds;
  owned = h.owned;
  kept_events = h.kept_events;
  no_events = h.no_events;
  cursor = h.cursor;
  no_checkpoints = h.no_checkpoints;
}

-- The rollback throws and has changed nothing, or it returns and has left exactly what is at or below
-- the fork, whatever calls of the database fail.
pub rollback_all_or_nothing :
    (topic : String) (fork : ℕ) (w : World)
    → let (r, v) = rollback_to_ledger topic fork w in
      ((r ≡ ok tt) × RolledBack topic fork w v)
      ⊎ ((r ≡ thrown database_down) × (v ≡ record w { faults = v.faults }))
rollback_all_or_nothing topic fork w = elim (rollback-AllOrNothing topic fork w) [
  | inl (ran, e) ↦ inl (
    ran,
    subst (RolledBack topic fork w) (sym e) (
        forget topic fork w (rollback_to_ledger topic fork w).1.faults (cut topic fork w)
          (cut-RolledBack topic fork w)),
  )
  | inr broke ↦ inr broke
]
