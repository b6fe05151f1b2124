-- ===== src/Indexer/Poller/Pages.antt =====
-- The loop over the pages in backend/src/indexer/poller.ts.
use stellar_tipz.Base.{
  ℕ, zero, suc, ◌+◌, ◌≤◌, ◌≡◌, inl, inr, refl, Bool, true, false, Option, none, some, List, [], ◌∷◌,
  ◌++◌, arith, All, All_map, ltb, Bool-cases, when_some,
}
use stellar_tipz.Indexer.Value.{Event}
use stellar_tipz.Indexer.State.{
  World, Result, ok, thrown, Failure, rpc_down, Exec, after, handle, ◌>>=◌, ◌>>◌, return, throw,
  catching,
}
use stellar_tipz.Indexer.Projections.{project_event}
use stellar_tipz.Indexer.Poller.{
  Rpc, Tick, poll_event, poll_page, read_pages, is_last, projected, with_failure,
}
use stellar_tipz.Indexer.Poller.Progress.{
  Grows, Grows-trans, Grows-same, IsStored, Projects, project_event-Projects, stays_stored,
}

-- A part of the loop over the events `es`: the cursors stay; the highest ledger that was projected
-- stays at or below the ceiling; and if it returns with no failure, there was none before, and every
-- event up to the ceiling is stored.
pub record Polls (ceiling : ℕ) (es : List Event) (t : Tick) (w : World) (r : Result Tick)
    (v : World) : Type 0 where
  pub grows : Grows w v
  pub below : (t' : Tick) → r ≡ ok t' → t.max_finalized ≤ ceiling → t'.max_finalized ≤ ceiling
  pub no_failure : (t' : Tick) → r ≡ ok t' → t'.any_failed ≡ false → t.any_failed ≡ false
  pub stored :
      (t' : Tick)
      → r ≡ ok t'
      → t'.any_failed ≡ false
      → All (λ e. e.ledger ≤ ceiling → IsStored e v) es

thrown-Polls :
    (ceiling : ℕ) (es : List Event) (t : Tick) (w v : World) (e : Failure)
    → Grows w v
    → Polls ceiling es t w (thrown e) v
thrown-Polls ceiling es t w v e g = record {
  grows = g;
  below = λ t' h. cc;
  no_failure = λ t' h. cc;
  stored = λ t' h. cc;
}

-- One event, once the projection has come to its end.
caught-Polls :
    (ceiling : ℕ) (e : Event) (t : Tick) (w v : World) (r : Result (Unit {0}))
    → e.ledger ≤ ceiling
    → Projects e w r v
    → let (r', u) = after r (λ _. return (projected e t)) v in
      let (r'', x) = handle r' (λ _. return (with_failure t)) u in Polls ceiling (e ∷ []) t w r'' x
unfolding after handle return
caught-Polls ceiling e t w v (ok _) le p = record {
  grows = p.grows;
  below = λ t' h. ground arith;
  no_failure = λ t' h. ground arith;
  stored = λ t' h f. (λ _. p.stored refl, tt);
}
caught-Polls ceiling e t w v (thrown x) le p = record {
  grows = p.grows;
  below = λ t' h. ground arith;
  no_failure = λ t' h f. absurd (ground arith);
  stored = λ t' h f. absurd (ground arith);
}

poll_event-Polls :
    (ceiling now : ℕ) (e : Event) (t : Tick) (w : World)
    → let (r, v) = poll_event ceiling now e t w in Polls ceiling (e ∷ []) t w r v
unfolding poll_event catching ◌>>◌ ◌>>=◌ return
poll_event-Polls ceiling now e t w = elim (Bool-cases (ltb ceiling e.ledger)) [
  | inl p ↦ rw p (record {
    grows = Grows-same w;
    below = λ t' h. ground arith;
    no_failure = λ t' h. ground arith;
    stored = λ t' h f. (λ le. absurd (ground arith), tt);
  })
  | inr p ↦ rw p (
      caught-Polls ceiling e t w (project_event e now w).1 (project_event e now w).0 (ground arith)
        (project_event-Projects e now w))
]

All_append : (P : Event → Type 0) (xs ys : List Event) → All P xs → All P ys → All P (xs ++ ys)
All_append P [] ys h k = k
All_append P (x ∷ xs) ys (h, hs) k = (h, All_append P xs ys hs k)

-- One part after another.
join-Polls :
    (ceiling : ℕ) (es es' : List Event) (t t1 : Tick) (w v u : World) (r : Result Tick)
    → Polls ceiling es t w (ok t1) v
    → Polls ceiling es' t1 v r u
    → Polls ceiling (es ++ es') t w r u
join-Polls ceiling es es' t t1 w v u r h next = record {
  grows = Grows-trans w v u h.grows next.grows;
  below = λ t' e le. next.below t' e (h.below t1 refl le);
  no_failure = λ t' e ff. h.no_failure t1 refl (next.no_failure t' e ff);
  stored = λ t' e ff.
      All_append _ es es'
        (All_map (λ x s le. stays_stored x v u next.grows (s le)) es
          (h.stored t1 refl (next.no_failure t' e ff)))
        (next.stored t' e ff);
}

after-Polls :
    (ceiling : ℕ) (es es' : List Event) (t : Tick) (w v : World) (r : Result Tick)
    (f : Tick → Exec Tick)
    → Polls ceiling es t w r v
    → ((t' : Tick) → let (r', u) = f t' v in Polls ceiling es' t' v r' u)
    → let (r', u) = after r f v in Polls ceiling (es ++ es') t w r' u
unfolding after
after-Polls ceiling es es' t w v (thrown x) f h k = thrown-Polls ceiling (es ++ es') t w v x h.grows
after-Polls ceiling es es' t w v (ok t1) f h k =
    join-Polls ceiling es es' t t1 w v (f t1 v).1 (f t1 v).0 h (k t1)

poll_page-Polls :
    (ceiling : ℕ) (clock : Event → ℕ) (es : List Event) (t : Tick) (w : World)
    → let (r, v) = poll_page ceiling clock es t w in Polls ceiling es t w r v
unfolding poll_page ◌>>=◌ return
poll_page-Polls ceiling clock [] t w = record {
  grows = Grows-same w;
  below = λ t' h. ground arith;
  no_failure = λ t' h. ground arith;
  stored = λ t' h f. tt;
}
poll_page-Polls ceiling clock (e ∷ es) t w =
    after-Polls ceiling (e ∷ []) es t w (poll_event ceiling (clock e) e t w).1
      (poll_event ceiling (clock e) e t w).0 (poll_page ceiling clock es)
      (poll_event-Polls ceiling (clock e) e t w)
      (λ t'. poll_page-Polls ceiling clock es t' (poll_event ceiling (clock e) e t w).1)

-- Nothing read.
idle-Polls : (ceiling : ℕ) (t : Tick) (w : World) → Polls ceiling [] t w (ok t) w
idle-Polls ceiling t w = record {
  grows = Grows-same w;
  below = λ t' h. ground arith;
  no_failure = λ t' h. ground arith;
  stored = λ t' h f. tt;
}

module _ (rpc : Rpc) (clock : ℕ → Event → ℕ) (ceiling start : ℕ) where
  -- The events of all pages that the loop reads, in their order.
  abbrev after_page : (Tick → World → List Event) → List Event → Result Tick → World → List Event
  after_page next es (thrown x) v = []
  after_page next es (ok t) v = elim (is_last ceiling es t) [ true ↦ [] | false ↦ next t v ]

  abbrev from_page :
      (Tick → World → List Event)
      → (ℕ → List Event → Result Tick × World)
      → ℕ
      → Option (List Event)
      → List Event
  from_page next run p none = []
  from_page next run p (some es) = es ++ after_page next es (run p es).0 (run p es).1

  unfoldable pub fetched : ℕ → ℕ → Tick → World → List Event
  fetched zero p t w = []
  fetched (suc left) p t w =
      from_page (λ t' v. fetched left (p + 1) t' v) (λ q es. poll_page ceiling (clock q) es t w) p
        (rpc.page p start t.paging_token)

  stop-Polls :
      (last : Bool) (rest : List Event) (k : Exec Tick) (t : Tick) (v : World)
      → (let (r, u) = k v in Polls ceiling rest t v r u)
      → let (r, u) = (elim last as (λ x. Exec Tick) [ true ↦ return t | false ↦ k ]) v in
        Polls ceiling (elim last [ true ↦ [] | false ↦ rest ]) t v r u
  unfolding return
  stop-Polls true rest k t v h = idle-Polls ceiling t v
  stop-Polls false rest k t v h = h

  module _ (next : Tick → World → List Event) (k : Tick → Exec Tick) where
    page_after :
        (es : List Event) (t : Tick) (w v : World) (r : Result Tick)
        → ((t' : Tick) (v' : World)
            → let (r', u) = k t' v' in Polls ceiling (next t' v') t' v' r' u)
        → Polls ceiling es t w r v
        → let (r', u) =
            after r (λ t'. elim (is_last ceiling es t') [ true ↦ return t' | false ↦ k t' ]) v in
          Polls ceiling (es ++ after_page next es r v) t w r' u
    unfolding after
    page_after es t w v (thrown x) hk h = thrown-Polls ceiling _ t w v x h.grows
    page_after es t w v (ok t1) hk h =
        join-Polls ceiling es _ t t1 w v _ _ h
          (stop-Polls (is_last ceiling es t1) (next t1 v) (k t1) t1 v (hk t1 v))

  module _ (t : Tick) (w : World) where
    option_after :
        (left p : ℕ) (o : Option (List Event))
        → ((t' : Tick) (v : World)
            → let (r', u) = read_pages rpc clock ceiling start left (p + 1) t' v in
              Polls ceiling (fetched left (p + 1) t' v) t' v r' u)
        → let (r, v) =
            when_some o
              (throw rpc_down)
              (λ es. do
                t' ← poll_page ceiling (clock p) es t
                elim (is_last ceiling es t') [
                  | true ↦ return t'
                  | false ↦ read_pages rpc clock ceiling start left (p + 1) t'
                ])
              w in
          Polls ceiling
            (from_page
              (λ t' v'. fetched left (p + 1) t' v')
              (λ q es. poll_page ceiling (clock q) es t w)
              p
              o)
            t
            w
            r
            v
    unfolding throw ◌>>=◌
    option_after left p none h = thrown-Polls ceiling [] t w w rpc_down (Grows-same w)
    option_after left p (some es) h =
        page_after (λ t' v'. fetched left (p + 1) t' v')
          (λ t'. read_pages rpc clock ceiling start left (p + 1) t') es t w
          (poll_page ceiling (clock p) es t w).1 (poll_page ceiling (clock p) es t w).0 h
          (poll_page-Polls ceiling (clock p) es t w)

  -- The whole loop over the pages that it fetches.
  pub read_pages-Polls :
      (left p : ℕ) (t : Tick) (w : World)
      → let (r, v) = read_pages rpc clock ceiling start left p t w in
        Polls ceiling (fetched left p t w) t w r v
  unfolding read_pages fetched return
  read_pages-Polls zero p t w = idle-Polls ceiling t w
  read_pages-Polls (suc left) p t w =
      option_after t w left p (rpc.page p start t.paging_token)
        (λ t' v. read_pages-Polls left (p + 1) t' v)
