-- ===== src/Common/RateLimit.antt =====
-- The limiter of socket connections and events (backend/src/realtime/rateLimit.ts).
-- The map `hits` is the function from a key to its entry; times are `Date.now()` values.
pub mod Budget
pub mod Sweep
mod Tests
use stellar_tipz.Base.{
  ℕ, ◌+◌, ◌≡◌, Bool, true, false, Option, none, some, List, [], ◌∷◌, ltb, leb, if◌then◌else◌,
}
use stellar_tipz.Base.Text.{String, str_eq}

pub record Window : Type 0 where
  pub count : ℕ
  pub reset_at : ℕ

-- `SlidingWindowLimiter`, with its private map.
pub record Limiter : Type 0 where
  pub max : ℕ
  pub window_ms : ℕ
  pub hits : String → Option Window

-- `this.hits.set(key, entry)`
abbrev pub set_hit : String → Window → (String → Option Window) → String → Option Window
set_hit key entry hits j = if str_eq key j then some entry else hits j

-- What `consume` does with the key's entry: the answer, and the entry afterwards.
consume_entry : ℕ → ℕ → ℕ → Option Window → Bool × Window
consume_entry max window_ms now none = (true, record { count = 1; reset_at = now + window_ms })
consume_entry max window_ms now (some w) =
    if leb w.reset_at now
    then (true, record { count = 1; reset_at = now + window_ms })
    else if leb max w.count
    then (false, w)
    else (true, record w { count = w.count + 1 })

unfoldable pub consume : String → ℕ → Limiter → Bool × Limiter
unfolding consume_entry
consume key now l =
    let (allowed, entry) = consume_entry l.max l.window_ms now (l.hits key) in
    (allowed, record l { hits = set_hit key entry l.hits })

-- `now >= entry.resetAt` drops the entry.
unfoldable pub sweep_entry : ℕ → Option Window → Option Window
sweep_entry now none = none
sweep_entry now (some w) = if leb w.reset_at now then none else some w

unfoldable pub sweep : ℕ → Limiter → Limiter
unfolding sweep_entry
sweep now l = record l { hits = λ j. sweep_entry now (l.hits j) }

-- Hits of one key at the given times; how many were allowed, and the limiter afterwards.
unfoldable pub consume_all : String → List ℕ → Limiter → ℕ × Limiter
unfolding consume
consume_all key [] l = (0, l)
consume_all key (now ∷ times) l =
    let (allowed, l') = consume key now l in
    let (n, l'') = consume_all key times l' in (if allowed then n + 1 else n, l'')
