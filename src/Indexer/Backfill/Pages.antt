-- ===== src/Indexer/Backfill/Pages.antt =====
-- The pages that a backfill reads (backend/src/indexer/backfill.ts).
use stellar_tipz.Base.{
  ℕ, zero, suc, ◌-◌, ◌≤◌, ◌≡◌, refl, sym, ap, ◌∙◌, inl, inr, max, min, Bool, true, false, Option,
  none, some, List, [], ◌∷◌, arith, ltb, Bool-cases,
}
use stellar_tipz.Indexer.Value.{Event}
use stellar_tipz.Indexer.State.{
  World, Result, ok, thrown, Exec, after, handle, ◌>>=◌, ◌>>◌, return, catching,
}
use stellar_tipz.Indexer.Projections.{project_event}
use stellar_tipz.Indexer.Backfill.{
  BackfillRpc, Backfill, first_backfill, with_event, with_failed, past_event, backfill_event,
  backfill_events, no_events, backfill_pages, finish_backfill, backfill_range,
}

-- A result that, if there is one, covers what `b` covers.
abbrev Covers : Backfill → Result Backfill → Type 0
Covers b r = (b' : Backfill) → r ≡ ok b' → b'.last_covered ≡ b.last_covered

ok-Covers : (b c : Backfill) → c.last_covered ≡ b.last_covered → Covers b (ok c)
ok-Covers b c same b' e =
    let it : c ≡ b' = cc in sym (ap (λ (x : Backfill). x.last_covered) it) ∙ same

caught-Covers :
    (e : Event) (b : Backfill) (r : Result (Unit {0})) (v : World)
    → let (r', u) = after r (λ _. return (past_event e (with_event e b))) v in
      Covers b (handle r' (λ x. return (past_event e (with_failed e b))) u).0
unfolding after handle return
caught-Covers e b (ok _) v = ok-Covers b _ refl
caught-Covers e b (thrown x) v = ok-Covers b _ refl

backfill_event-Covers :
    (dry : Bool) (last now : ℕ) (e : Event) (b : Backfill) (w : World)
    → Covers b (backfill_event dry last now e b w).0
unfolding backfill_event catching ◌>>◌ ◌>>=◌ return
backfill_event-Covers dry last now e b w = elim (Bool-cases (ltb last e.ledger)) [
  | inl p ↦ rw p (ok-Covers b _ refl)
  | inr p ↦ rw p (elim (Bool-cases dry) [
    | inl q ↦ rw q (ok-Covers b _ refl)
    | inr q ↦ rw q (caught-Covers e b (project_event e now w).0 (project_event e now w).1)
  ])
]

after-Covers :
    (b : Backfill) (r : Result Backfill) (v : World) (k : Backfill → Exec Backfill)
    → Covers b r
    → ((c : Backfill) (u : World) → Covers c (k c u).0)
    → Covers b (after r k v).0
unfolding after
after-Covers b (thrown x) v k h f b' e = absurd (ground (arith, e))
after-Covers b (ok c) v k h f b' e = f c v b' e ∙ h c refl

backfill_events-Covers :
    (dry : Bool) (last : ℕ) (clock : Event → ℕ) (es : List Event) (b : Backfill) (w : World)
    → Covers b (backfill_events dry last clock es b w).0
unfolding backfill_events ◌>>=◌ return
backfill_events-Covers dry last clock [] b w = ok-Covers b b refl
backfill_events-Covers dry last clock (e ∷ es) b w =
    after-Covers b (backfill_event dry last (clock e) e b w).0
      (backfill_event dry last (clock e) e b w).1 (λ c. backfill_events dry last clock es c)
      (backfill_event-Covers dry last (clock e) e b w)
      (λ c u. backfill_events-Covers dry last clock es c u)

-- Programs that go on alike from what is covered.
after_same :
    {A : Type 0} (b : Backfill) (r : Result Backfill) (v : World) (k k' : Backfill → Exec A)
    → Covers b r
    → ((b' : Backfill) → b'.last_covered ≡ b.last_covered → k b' ≡ k' b')
    → after r k v ≡ after r k' v
unfolding after
after_same b (thrown x) v k k' h f = refl
after_same b (ok c) v k k' h f = ap (λ m. m v) (f c (h c refl))

after-return : (r : Result Backfill) (v : World) → after r return v ≡ (r, v)
unfolding after return
after-return (thrown x) v = refl
after-return (ok c) v = refl

-- Pages that are read once all is covered.
covered_pages :
    (rpc : BackfillRpc) (clock : ℕ → Event → ℕ) (dry : Bool) (start last left p : ℕ) (b : Backfill)
    → b.last_covered ≡ last
    → backfill_pages rpc clock dry start last left p b ≡ return b
unfolding backfill_pages
covered_pages rpc clock dry start last zero p b e = refl
covered_pages rpc clock dry start last (suc left) p b e =
    let stop : ltb b.last_covered last ≡ false = ground arith in rw stop refl

after_page :
    (empty : Bool) (b : Backfill) {m : Exec Backfill}
    → m ≡ return b
    → ◌≡◌ {A = Exec Backfill} (elim empty [ true ↦ return b | false ↦ m ]) (return b)
after_page true b e = refl
after_page false b e = e

-- A backfill of a range that is not empty, whose first page is answered and names a latest ledger at or
-- after the range's end: however many pages it may read, it projects the events of that page, reads no
-- other page and ends with all ledgers of the range taken as covered.
pub first_page_only :
    (rpc : BackfillRpc) (clock : ℕ → Event → ℕ) (dry : Bool) (stored : Option ℕ)
    (start last latest left : ℕ) (es : List Event) (w : World)
    → 1 ≤ start
    → start ≤ last
    → last ≤ latest
    → rpc.page 0 start none ≡ some (es, latest)
    → backfill_range rpc clock dry stored start last (suc left) w
      ≡ (do
        b ←
            backfill_events dry last
              (clock 0)
              es
              (record (first_backfill start) { last_covered = last })
        finish_backfill dry start last b)
          w
unfolding backfill_range backfill_pages ◌>>=◌
first_page_only rpc clock dry stored start last latest left es w pos le head page =
    let work : ltb last start ≡ false = ground arith in
    let more : ltb (start - 1) last ≡ true = ground arith in
    let all : min (max (start - 1) latest) last ≡ last = omega arith in
    let b : Backfill = record (first_backfill start) { last_covered = last } in
    let (r, v) = backfill_events dry last (clock 0) es b w in
    let on : Backfill → Exec Backfill = λ b'. elim (no_events es) [
      | true ↦ return b'
      | false ↦ backfill_pages rpc clock dry start last left 1 b'
    ] in
    let ends : (b' : Backfill) → b'.last_covered ≡ b.last_covered → on b' ≡ return b' = λ b' same.
      after_page (no_events es) b' (covered_pages rpc clock dry start last left 1 b' same) in
    let alone : after r on v ≡ (r, v) =
      after_same b r v on return (backfill_events-Covers dry last (clock 0) es b w) ends
      ∙ after-return r v in
    rw (work, more, page, all)
      (ap (λ (p : Result Backfill × World). after p.0 (finish_backfill dry start last) p.1) alone)
