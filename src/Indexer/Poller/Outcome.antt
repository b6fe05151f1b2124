-- ===== src/Indexer/Poller/Outcome.antt =====
-- How a poll of backend/src/indexer/poller.ts ends.
use stellar_tipz.Base.{
  ℕ, ◌-◌, ◌≤◌, ◌<◌, ◌≡◌, ◌∙◌, ap, inl, inr, refl, max, true, false, some, List, [], ◌∷◌, arith, All,
  All_map, ltb, Bool-cases,
}
use stellar_tipz.Base.Text.{String}
use stellar_tipz.Indexer.Value.{Event}
use stellar_tipz.Indexer.State.{
  World, Checkpoint, Result, ok, thrown, Failure, projection_failed, Exec, after, ◌>>=◌, ◌>>◌,
  return, throw, catching, handle, write,
}
use stellar_tipz.Indexer.Atomic.{AllOrNothing, write-AllOrNothing}
use stellar_tipz.Indexer.Chain.{
  put_cursor, change_checkpoints, delete_listed, set_cursor_ledger, record_checkpoint,
  prune_checkpoints, delete_stale,
}
use stellar_tipz.Indexer.Replay.Frame.{
  SameLog, Frames, Frames-write, Frames-catching, Frames-return, frame_rules,
}
use stellar_tipz.Indexer.Reorg.{Lookup, failed, absent, found}
use stellar_tipz.Indexer.Poller.{
  Rpc, Config, Tick, first_tick, cursor_topic, max_pages_per_tick, read_pages, record_hash,
  finish_tick, run_tick,
}
use stellar_tipz.Indexer.Poller.Progress.{IsStored}
use stellar_tipz.Indexer.Poller.Pages.{Polls, fetched, read_pages-Polls}

change-Frames :
    (topic : String) (f : List Checkpoint → List Checkpoint)
    → Frames (write (change_checkpoints topic f))
change-Frames topic f =
    Frames-write _ (λ w. record { log = refl; messages = refl; progress = refl })

delete_stale-Frames : (topic : String) (cs : List Checkpoint) → Frames (delete_stale topic cs)
unfolding delete_stale
delete_stale-Frames topic [] = Frames-return tt
delete_stale-Frames topic (c ∷ cs) = change-Frames topic (delete_listed (c ∷ cs))

record_checkpoint-Frames :
    (topic : String) (ledger : ℕ) (hash : String) (keep : ℕ)
    → Frames (record_checkpoint topic ledger hash keep)
unfolding record_checkpoint prune_checkpoints
record_checkpoint-Frames topic ledger hash keep =
    search (frame_rules, change-Frames, delete_stale-Frames)

record_hash-Frames : (c : Config) (ledger : ℕ) (l : Lookup) → Frames (record_hash c ledger l)
unfolding record_hash
record_hash-Frames c ledger failed = search frame_rules
record_hash-Frames c ledger absent = search frame_rules
record_hash-Frames c ledger (found hash) = search (frame_rules, record_checkpoint-Frames)

-- The end of a poll: a failure leaves the cursors; otherwise the cursor is at `next`, the log is
-- kept, and nothing had failed.
record Finished (next : ℕ) (t : Tick) (w : World) (r : Result (Unit {0})) (v : World) : Type 0 where
  pub stays : (e : Failure) → r ≡ thrown e → v.cursors ≡ w.cursors
  pub moved : r ≡ ok tt → v.cursors cursor_topic ≡ some next
  pub no_failure : r ≡ ok tt → t.any_failed ≡ false
  pub log : v.event_log ≡ w.event_log

caught_ok : (r : Result (Unit {0})) (u : World) → (handle r (λ x. return tt) u).0 ≡ ok tt
unfolding handle return
caught_ok (ok _) u = refl
caught_ok (thrown x) u = refl

caught_returns : (m : Exec (Unit {0})) (v : World) → (catching m (λ x. return tt) v).0 ≡ ok tt
unfolding catching
caught_returns m v = caught_ok (m v).0 (m v).1

-- The writes after the cursor, none of which can fail the poll.
moved-Finished :
    (next : ℕ) (t : Tick) (w v u : World) (r : Result (Unit {0}))
    → t.any_failed ≡ false
    → v ≡ record (put_cursor cursor_topic next w) { faults = v.faults }
    → SameLog v u
    → r ≡ ok tt
    → Finished next t w r u
moved-Finished next t w v u r ff e same returned = record {
  stays = λ x h. absurd (ground arith);
  moved = λ _. rw (same.progress, ap {A = World} (λ x. x.cursors) e) refl;
  no_failure = λ _. ff;
  log = same.log ∙ ap {A = World} (λ x. x.event_log) e;
}

cursor-Finished :
    (next : ℕ) (t : Tick) (w v : World) (r : Result (Unit {0})) (m : Exec (Unit {0}))
    → t.any_failed ≡ false
    → AllOrNothing (put_cursor cursor_topic next) w (r, v)
    → Frames m
    → let (r', u) = after r (λ _. catching m (λ x. return tt)) v in Finished next t w r' u
unfolding after
cursor-Finished next t w v (thrown x) m ff (inl (e, _)) fm = absurd (ground arith)
cursor-Finished next t w v (thrown x) m ff (inr (_, e)) fm = record {
  stays = λ y h. ap {A = World} (λ u. u.cursors) e;
  moved = λ h. absurd (ground arith);
  no_failure = λ h. ff;
  log = ap {A = World} (λ u. u.event_log) e;
}
cursor-Finished next t w v (ok _) m ff (inl (_, e)) fm =
    moved-Finished next t w v (catching m (λ x. return tt) v).1 (catching m (λ x. return tt) v).0 ff
      e ((Frames-catching m _ fm (λ x. Frames-return tt)).at v) (caught_returns m v)
cursor-Finished next t w v (ok _) m ff (inr (e, _)) fm = absurd (ground arith)

failed-Finished : (next : ℕ) (t : Tick) (w : World) (e : Failure) → Finished next t w (thrown e) w
failed-Finished next t w e = record {
  stays = λ x h. refl;
  moved = λ h. absurd (ground arith);
  no_failure = λ h. absurd (ground arith);
  log = refl;
}

finish_tick-Finished :
    (c : Config) (rpc : Rpc) (ceiling : ℕ) (t : Tick) (w : World)
    → let (r, v) = finish_tick c rpc ceiling t w in Finished (max t.max_finalized ceiling) t w r v
unfolding finish_tick set_cursor_ledger ◌>>◌ ◌>>=◌ throw
finish_tick-Finished c rpc ceiling t w = elim (Bool-cases t.any_failed) [
  | inl bad ↦ simp bad (failed-Finished (max t.max_finalized ceiling) t w projection_failed)
  | inr good ↦
      let next = max t.max_finalized ceiling in
      simp good (
        cursor-Finished next t w (write (put_cursor cursor_topic next) w).1
          (write (put_cursor cursor_topic next) w).0 _ good
          (write-AllOrNothing (put_cursor cursor_topic next) (λ x fs. refl) w)
          (record_hash-Frames c next (rpc.ledger_hash next)))
]

-- The end of a poll that reads the events `es` up to the ceiling.
record Ended (ceiling : ℕ) (es : List Event) (w : World) (r : Result (Unit {0})) (v : World)
    : Type 0 where
  pub stays : (e : Failure) → r ≡ thrown e → v.cursors ≡ w.cursors
  pub moved : r ≡ ok tt → v.cursors cursor_topic ≡ some ceiling
  pub stored : r ≡ ok tt → All (λ e. e.ledger ≤ ceiling → IsStored e v) es

finish-Ended :
    (ceiling : ℕ) (es : List Event) (t0 t : Tick) (w v u : World) (r : Result (Unit {0}))
    → t0.max_finalized ≤ ceiling
    → Polls ceiling es t0 w (ok t) v
    → Finished (max t.max_finalized ceiling) t v r u
    → Ended ceiling es w r u
finish-Ended ceiling es t0 t w v u r le p f = record {
  stays = λ e h. f.stays e h ∙ p.grows.progress;
  moved = λ h.
      let low = p.below t refl le in
      let same : max t.max_finalized ceiling ≡ ceiling = omega arith in f.moved h ∙ ap some same;
  stored = λ h. All_map (λ e s le'. rw f.log (s le')) es (p.stored t refl (f.no_failure h));
}

loop-Ended :
    (c : Config) (rpc : Rpc) (ceiling : ℕ) (es : List Event) (t0 : Tick) (w v : World)
    (r : Result Tick)
    → t0.max_finalized ≤ ceiling
    → Polls ceiling es t0 w r v
    → let (r', u) = after r (finish_tick c rpc ceiling) v in Ended ceiling es w r' u
unfolding after
loop-Ended c rpc ceiling es t0 w v (thrown x) le p = record {
  stays = λ e h. p.grows.progress;
  moved = λ h. absurd (ground arith);
  stored = λ h. absurd (ground arith);
}
loop-Ended c rpc ceiling es t0 w v (ok t) le p =
    finish-Ended ceiling es t0 t w v (finish_tick c rpc ceiling t v).1
      (finish_tick c rpc ceiling t v).0 le p (finish_tick-Finished c rpc ceiling t v)

module _ (c : Config) (rpc : Rpc) (clock : ℕ → Event → ℕ) (start head : ℕ) (w : World) where
  abbrev ceiling : ℕ
  ceiling = head - c.finality_depth

  run_tick-Ended :
      start ≤ ceiling
      → let (r, v) = run_tick c rpc clock start head w in
        Ended ceiling
          (fetched rpc clock ceiling start max_pages_per_tick 0 (first_tick start) w)
          w
          r
          v
  unfolding run_tick ◌>>=◌
  run_tick-Ended le =
      let open_window : ltb ceiling start ≡ false = ground arith in
      let loop = read_pages rpc clock ceiling start max_pages_per_tick 0 (first_tick start) w in
      rw open_window (
        loop-Ended c rpc ceiling _ (first_tick start) w loop.1 loop.0 (omega arith)
          (read_pages-Polls rpc clock ceiling start max_pages_per_tick 0 (first_tick start) w))

  idle_tick : ceiling < start → run_tick c rpc clock start head w ≡ (ok tt, w)
  unfolding run_tick return
  idle_tick lt = let shut : ltb ceiling start ≡ true = ground arith in rw shut refl

  -- A poll from `start` with the chain at `head`, whatever requests and calls of the database fail:
  -- if the ledger `head - finality_depth` is below `start` it does nothing; if it throws, the cursor
  -- is where it was; if it returns, the cursor is at that ledger, and of all pages that it fetched
  -- every event up to that ledger is stored.
  pub run_tick_outcome :
      let (r, v) = run_tick c rpc clock start head w in
      (ceiling < start → (r ≡ ok tt) × (v ≡ w))
      × ((e : Failure) → start ≤ ceiling → r ≡ thrown e → v.cursors ≡ w.cursors)
      × (start ≤ ceiling
          → r ≡ ok tt
          → (v.cursors cursor_topic ≡ some ceiling)
            × All
                (λ e. e.ledger ≤ ceiling → IsStored e v)
                (fetched rpc clock ceiling start max_pages_per_tick 0 (first_tick start) w))
  run_tick_outcome = (
    λ lt. (ap (λ p. p.0) (idle_tick lt), ap (λ p. p.1) (idle_tick lt)),
    λ e le h. (run_tick-Ended le).stays e h,
    λ le h. ((run_tick-Ended le).moved h, (run_tick-Ended le).stored h),
  )
