-- ===== src/Indexer/Reorg/Search.antt =====
-- The search for the fork: `detectReorg` of backend/src/indexer/reorg.ts.
use stellar_tipz.Base.{
  ℕ, ◌<◌, ◌≡◌, ◌≢◌, ◌⊎◌, inl, inr, refl, ap, ◌∙◌, true, false, Option, none, some, List, [], ◌∷◌,
  arith, All, All_map, Bool-cases,
}
use stellar_tipz.Base.Text.{String, str_eq, eq_iff}
use stellar_tipz.Indexer.State.{Checkpoint, Result, ok, thrown, rpc_down}
use stellar_tipz.Indexer.Chain.Window.{Below, Below-all, Below-tail}
use stellar_tipz.Indexer.Reorg.{
  Lookup, failed, absent, found, ReorgDetection, detect_loop, detect_reorg, no_fork, first_diverged,
  has_diverged,
}

module _ (get_hash : ℕ → Lookup) where
  -- The chain still has the checkpoint's hash, or has another.
  abbrev pub Matches : Checkpoint → Type 0
  Matches c = get_hash c.ledger ≡ found c.ledger_hash

  abbrev pub Diverges : Checkpoint → Type 0
  Diverges c = (hash : String) × (get_hash c.ledger ≡ found hash) × (hash ≢ c.ledger_hash)

  pub data Somewhere (P : Checkpoint → Type 0) : List Checkpoint → Type 0 where
    here : (c : Checkpoint) (cs : List Checkpoint) → P c → Somewhere P (c ∷ cs)
    there : (c : Checkpoint) (cs : List Checkpoint) → Somewhere P cs → Somewhere P (c ∷ cs)

  -- What the search for the fork among `cs` has found, where `diverged` says what it had seen
  -- before: no checkpoint above the fork matches; the fork matches, or nothing does; a
  -- reorganization is reported only if a checkpoint diverges, and always if one does that is not
  -- below the fork.
  pub record IsFork (diverged : Option ℕ) (cs : List Checkpoint) (d : ReorgDetection) : Type 0 where
    pub newest : (f : ℕ) → d.fork_ledger ≡ some f → All (λ c. f < c.ledger → Matches c → ⊥) cs
    pub matching :
        (f : ℕ)
        → d.fork_ledger ≡ some f
        → Somewhere (λ c. (c.ledger ≡ f) × Matches c) cs ⊎ All (λ c. Matches c → ⊥) cs
    pub caused : d.reorged ≡ true → (has_diverged diverged ≡ true) ⊎ Somewhere Diverges cs
    pub calm :
        d.reorged ≡ false
        → (has_diverged diverged ≡ false)
          × All (λ c. Diverges c → (f : ℕ) × (d.fork_ledger ≡ some f) × (c.ledger < f)) cs

  -- The end of the list.
  end-IsFork :
      (all : List Checkpoint) (diverged : Option ℕ) → IsFork diverged [] (no_fork all diverged)
  unfolding no_fork
  end-IsFork all none = record {
    newest = λ f e. tt;
    matching = λ f e. inr tt;
    caused = λ r. cc;
    calm = λ r. (refl, tt);
  }
  end-IsFork all (some d) = record {
    newest = λ f e. tt;
    matching = λ f e. inr tt;
    caused = λ r. inl refl;
    calm = λ r. cc;
  }

  -- A checkpoint that matches.
  match-IsFork :
      (diverged : Option ℕ) (c : Checkpoint) (cs : List Checkpoint)
      → Matches c
      → Below c.ledger cs
      → IsFork diverged (c ∷ cs) (record {
        reorged = has_diverged diverged;
        fork_ledger = some c.ledger;
        diverged_at = diverged;
      })
  match-IsFork diverged c cs m d = record {
    newest = λ f e.
        (λ lt _. ground arith, All_map (λ x h lt _. ground arith) cs (Below-all c.ledger cs d));
    matching = λ f e. inl (here c cs (ground arith, m));
    caused = λ r. inl r;
    calm = λ r. (
      r,
      (
        λ x. absurd (ground arith),
        All_map (λ x h _. (c.ledger, refl, h)) cs (Below-all c.ledger cs d),
      ),
    );
  }

  -- A checkpoint that is skipped.
  skip-IsFork :
      (diverged : Option ℕ) (c : Checkpoint) (cs : List Checkpoint) (d : ReorgDetection)
      → get_hash c.ledger ≡ absent
      → IsFork diverged cs d
      → IsFork diverged (c ∷ cs) d
  skip-IsFork diverged c cs d e h = record {
    newest = λ f k. (λ lt m. cc, h.newest f k);
    matching =
        λ f k. elim (h.matching f k) [ inl p ↦ inl (there c cs p) | inr p ↦ inr (λ m. cc, p) ];
    caused = λ r. elim (h.caused r) [ inl p ↦ inl p | inr p ↦ inr (there c cs p) ];
    calm = λ r. ((h.calm r).0, (λ (x, q, _). cc, (h.calm r).1));
  }

  -- A checkpoint that diverges.
  diverge-IsFork :
      (diverged : Option ℕ) (c : Checkpoint) (cs : List Checkpoint) (d : ReorgDetection)
      → Diverges c
      → IsFork (some (first_diverged diverged c.ledger)) cs d
      → IsFork diverged (c ∷ cs) d
  diverge-IsFork diverged c cs d (hash, e, ne) h = record {
    newest = λ f k. (λ lt m. ground arith, h.newest f k);
    matching = λ f k. elim (h.matching f k) [
      | inl p ↦ inl (there c cs p)
      | inr p ↦ inr (λ m. ground arith, p)
    ];
    caused = λ r. inr (here c cs (hash, e, ne));
    calm = λ r. absurd (ground (arith, (h.calm r).0));
  }

  -- What a search comes to: a fork, or a failure, which only a failed request causes.
  abbrev pub Outcome : Option ℕ → List Checkpoint → Result ReorgDetection → Type 0
  Outcome diverged cs (ok d) = IsFork diverged cs d
  Outcome diverged cs (thrown e) = Somewhere (λ c. get_hash c.ledger ≡ failed) cs

  skip-Outcome :
      (diverged : Option ℕ) (c : Checkpoint) (cs : List Checkpoint) (r : Result ReorgDetection)
      → get_hash c.ledger ≡ absent
      → Outcome diverged cs r
      → Outcome diverged (c ∷ cs) r
  skip-Outcome diverged c cs (ok d) e h = skip-IsFork diverged c cs d e h
  skip-Outcome diverged c cs (thrown x) e h = there c cs h

  diverge-Outcome :
      (diverged : Option ℕ) (c : Checkpoint) (cs : List Checkpoint) (r : Result ReorgDetection)
      → Diverges c
      → Outcome (some (first_diverged diverged c.ledger)) cs r
      → Outcome diverged (c ∷ cs) r
  diverge-Outcome diverged c cs (ok d) e h = diverge-IsFork diverged c cs d e h
  diverge-Outcome diverged c cs (thrown x) e h = there c cs h

  Lookup-cases : (l : Lookup) → (l ≡ failed) ⊎ (l ≡ absent) ⊎ ((hash : String) × (l ≡ found hash))
  Lookup-cases failed = inl refl
  Lookup-cases absent = inr (inl refl)
  Lookup-cases (found hash) = inr (inr (hash, refl))

  end-Outcome :
      (all : List Checkpoint) (diverged : Option ℕ)
      → Outcome diverged [] (detect_loop get_hash all diverged [])
  unfolding detect_loop
  end-Outcome all diverged = end-IsFork all diverged

  module _ (all : List Checkpoint) (diverged : Option ℕ) (c : Checkpoint)
      (cs : List Checkpoint) where
    loop_fails :
        get_hash c.ledger ≡ failed → detect_loop get_hash all diverged (c ∷ cs) ≡ thrown rpc_down
    unfolding detect_loop
    loop_fails e = rw (e, detect_loop) refl

    loop_skips :
        get_hash c.ledger ≡ absent
        → detect_loop get_hash all diverged (c ∷ cs) ≡ detect_loop get_hash all diverged cs
    unfolding detect_loop
    loop_skips e = rw (e, detect_loop) refl

    loop_matches :
        (hash : String)
        → get_hash c.ledger ≡ found hash
        → str_eq hash c.ledger_hash ≡ true
        → detect_loop get_hash all diverged (c ∷ cs)
          ≡ ok (record {
            reorged = has_diverged diverged;
            fork_ledger = some c.ledger;
            diverged_at = diverged;
          })
    unfolding detect_loop
    loop_matches hash e same = rw (e, same, detect_loop) refl

    loop_diverges :
        (hash : String)
        → get_hash c.ledger ≡ found hash
        → str_eq hash c.ledger_hash ≡ false
        → detect_loop get_hash all diverged (c ∷ cs)
          ≡ detect_loop get_hash all (some (first_diverged diverged c.ledger)) cs
    unfolding detect_loop
    loop_diverges hash e other = rw (e, other, detect_loop) refl

  loop-Outcome :
      (all : List Checkpoint) (diverged : Option ℕ) (bound : ℕ) (cs : List Checkpoint)
      → Below bound cs
      → Outcome diverged cs (detect_loop get_hash all diverged cs)
  loop-Outcome all diverged bound [] h = end-Outcome all diverged
  loop-Outcome all diverged bound (c ∷ cs) h =
      let tail = Below-tail bound c cs h in
      elim (Lookup-cases (get_hash c.ledger)) [
        | inl gone ↦ rw (loop_fails all diverged c cs gone) (here c cs gone)
        | inr (inl skip) ↦
            rw (loop_skips all diverged c cs skip)
              (skip-Outcome diverged c cs _ skip (loop-Outcome all diverged c.ledger cs tail))
        | inr (inr (hash, found_it)) ↦ elim (Bool-cases (str_eq hash c.ledger_hash)) [
          | inl same ↦ rw (loop_matches all diverged c cs hash found_it same) (
              match-IsFork diverged c cs (found_it ∙ ap found ((eq_iff hash c.ledger_hash).0 same))
                tail)
          | inr other ↦ rw (loop_diverges all diverged c cs hash found_it other) (
              diverge-Outcome diverged c cs _
                (hash, found_it, λ p. ground (arith, eq_iff hash c.ledger_hash))
                (loop-Outcome all (some (first_diverged diverged c.ledger)) c.ledger cs tail))
        ]
      ]

  -- For checkpoints in descending order and any answers of the chain, the search ends with a fork
  -- as `IsFork` describes it, or throws because a request failed.
  pub detect_reorg-Outcome :
      (bound : ℕ) (cs : List Checkpoint)
      → Below bound cs
      → Outcome none cs (detect_reorg cs get_hash)
  unfolding detect_reorg
  detect_reorg-Outcome bound cs h = loop-Outcome cs none bound cs h
