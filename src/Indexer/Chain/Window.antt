-- ===== src/Indexer/Chain/Window.antt =====
-- The order and the size of the window of backend/src/indexer/ledger-checkpoint.store.ts.
use stellar_tipz.Base.{
  ℕ, zero, suc, ◌+◌, ◌≤◌, ◌<◌, ◌≡◌, refl, true, false, List, [], ◌∷◌, leb, arith, take, drop,
  length, take_all, length-drop, All, All_map, Bool-cases, inl, inr,
}
use stellar_tipz.Indexer.State.{Checkpoint}
use stellar_tipz.Indexer.Chain.{upsert_checkpoint, is_listed, delete_listed, stale_rows, up_to}

-- In strictly descending order of the ledgers, all below `bound`.
unfoldable pub Below : ℕ → List Checkpoint → Type 0
Below bound [] = Unit
Below bound (c ∷ cs) = (c.ledger < bound) × Below c.ledger cs

weaken : (a b : ℕ) (cs : List Checkpoint) → a ≤ b → Below a cs → Below b cs
unfolding Below
weaken a b [] h d = tt
weaken a b (c ∷ cs) h (d, ds) = (omega arith, ds)

-- An upsert below the bound keeps a descending list descending.
pub upsert-Below :
    (cp : Checkpoint) (bound : ℕ) (cs : List Checkpoint)
    → cp.ledger < bound
    → Below bound cs
    → Below bound (upsert_checkpoint cp cs)
unfolding Below upsert_checkpoint
upsert-Below cp bound [] h d = (h, tt)
upsert-Below cp bound (c ∷ cs) h (d, ds) =
    let rest = upsert-Below cp c.ledger cs in ground (arith, rest, weaken c.ledger cp.ledger cs)

-- No row of a descending list below the bound has the bound's ledger or a higher one.
not_listed :
    (ledger bound : ℕ) (cs : List Checkpoint)
    → bound ≤ ledger
    → Below bound cs
    → is_listed ledger cs ≡ false
unfolding Below is_listed
not_listed ledger bound [] h d = refl
not_listed ledger bound (c ∷ cs) h (d, ds) =
    let rest = not_listed ledger c.ledger cs (omega arith) ds in ground (arith, rest)

drop-Below : (n bound : ℕ) (cs : List Checkpoint) → Below bound cs → Below bound (drop n cs)
unfolding Below
drop-Below zero bound cs d = d
drop-Below (suc n) bound [] d = tt
drop-Below (suc n) bound (c ∷ cs) (d, ds) =
    weaken c.ledger bound (drop n cs) (omega arith) (drop-Below n c.ledger cs ds)

listed_later :
    (ledger : ℕ) (c : Checkpoint) (cs : List Checkpoint)
    → is_listed ledger cs ≡ true
    → is_listed ledger (c ∷ cs) ≡ true
unfolding is_listed
listed_later ledger c cs h = ground arith

abbrev AllListed : List Checkpoint → List Checkpoint → Type 0
AllListed rows = All (λ c. is_listed c.ledger rows ≡ true)

AllListed-later :
    (c : Checkpoint) (rows xs : List Checkpoint) → AllListed rows xs → AllListed (c ∷ rows) xs
AllListed-later c rows [] h = tt
AllListed-later c rows (x ∷ xs) (h, hs) =
    (listed_later x.ledger c rows h, AllListed-later c rows xs hs)

listed_here : (c : Checkpoint) (cs : List Checkpoint) → is_listed c.ledger (c ∷ cs) ≡ true
unfolding is_listed
listed_here c cs = ground arith

AllListed-self : (cs : List Checkpoint) → AllListed cs cs
AllListed-self [] = tt
AllListed-self (c ∷ cs) = (listed_here c cs, AllListed-later c cs cs (AllListed-self cs))

delete_all : (rows xs : List Checkpoint) → AllListed rows xs → delete_listed rows xs ≡ []
delete_all rows [] h = refl
delete_all rows (x ∷ xs) (h, hs) = rw (h, delete_all rows xs hs) refl

delete-drop :
    (keep bound : ℕ) (cs : List Checkpoint)
    → Below bound cs
    → delete_listed (drop keep cs) cs ≡ take keep cs
unfolding Below
delete-drop zero bound cs d = delete_all cs cs (AllListed-self cs)
delete-drop (suc keep) bound [] d = refl
delete-drop (suc keep) bound (c ∷ cs) (d, ds) =
    rw
      (
        not_listed c.ledger c.ledger (drop keep cs) (omega arith) (drop-Below keep c.ledger cs ds),
        delete-drop keep c.ledger cs ds,
      )
      refl

-- Of checkpoints in descending order, at most `keep + 1000` of them, the deletion of the stale rows
-- leaves exactly the first `keep`, which are those of the highest ledgers.
pub delete_stale_keeps_newest :
    (keep bound : ℕ) (cs : List Checkpoint)
    → Below bound cs
    → length cs ≤ keep + 1000
    → delete_listed (stale_rows keep cs) cs ≡ take keep cs
unfolding stale_rows
delete_stale_keeps_newest keep bound cs d h =
    rw (take_all 1000 (drop keep cs) (omega (arith, length-drop keep cs)))
      (delete-drop keep bound cs d)

filter-Below :
    (bound ledger : ℕ) (cs : List Checkpoint) → Below bound cs → Below bound (up_to ledger cs)
unfolding Below
filter-Below bound ledger [] d = tt
filter-Below bound ledger (c ∷ cs) (d, ds) = elim (Bool-cases (leb c.ledger ledger)) [
  | inl p ↦ rw p (d, filter-Below c.ledger ledger cs ds)
  | inr p ↦ rw p (weaken c.ledger bound _ (omega arith) (filter-Below c.ledger ledger cs ds))
]

-- All ledgers of such a list are below the bound.
pub Below-all : (bound : ℕ) (cs : List Checkpoint) → Below bound cs → All (λ c. c.ledger < bound) cs
unfolding Below
Below-all bound [] d = tt
Below-all bound (c ∷ cs) (d, ds) = (d, All_map (λ x h. omega arith) cs (Below-all c.ledger cs ds))

pub Below-tail :
    (bound : ℕ) (c : Checkpoint) (cs : List Checkpoint) → Below bound (c ∷ cs) → Below c.ledger cs
unfolding Below
Below-tail bound c cs (d, ds) = ds
