-- ===== src/Indexer/Poller/Cap.antt =====
-- The bound of pages in backend/src/indexer/poller.ts.
use stellar_tipz.Base.{
  ℕ, zero, suc, ◌+◌, ◌-◌, ◌≤◌, ◌<◌, ◌≡◌, ap, refl, fun_ext, true, false, Option, List, arith,
  when_some,
}
use stellar_tipz.Base.Text.{String}
use stellar_tipz.Indexer.Value.{Event}
use stellar_tipz.Indexer.State.{World, Exec, ◌>>=◌, return, throw, rpc_down}
use stellar_tipz.Indexer.Poller.{
  Rpc, Config, Tick, first_tick, max_pages_per_tick, poll_page, is_last, read_pages, run_tick,
}

module _ (c : Config) (rpc : Rpc) (page' : ℕ → ℕ → Option String → Option (List Event))
    (clock : ℕ → Event → ℕ) (start head : ℕ) where
  -- The same answers, except for the pages.
  abbrev other : Rpc
  other = record rpc { page = page' }

  same_pages :
      (ceiling bound left p : ℕ) (t : Tick)
      → p + left ≤ bound
      → ((q : ℕ) (token : Option String) → q < bound → page' q start token ≡ rpc.page q start token)
      → read_pages other clock ceiling start left p t ≡ read_pages rpc clock ceiling start left p t
  unfolding read_pages
  same_pages ceiling bound zero p t le h = refl
  same_pages ceiling bound (suc left) p t le h = rw (h p t.paging_token (omega arith)) (
      ap
        (λ (k : Tick → Exec Tick).
          when_some (rpc.page p start t.paging_token) (throw rpc_down) (λ es.
            poll_page ceiling (clock p) es t >>= λ t'. elim (is_last ceiling es t') [
              | true ↦ return t'
              | false ↦ k t'
            ]))
        (fun_ext (λ t'. same_pages ceiling bound left (p + 1) t' (omega arith) h)))

  -- Whatever the fiftieth page and later ones hold, counted from 0, a poll does the same.
  later_pages_unread :
      ((q : ℕ) (token : Option String) → q < 50 → page' q start token ≡ rpc.page q start token)
      → (w : World) → run_tick c other clock start head w ≡ run_tick c rpc clock start head w
  unfolding run_tick
  later_pages_unread h w =
      let ceiling = head - c.finality_depth in
      rw (same_pages ceiling 50 max_pages_per_tick 0 (first_tick start) (omega arith) h) refl
