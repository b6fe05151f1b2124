-- ===== src/Common/RateLimit/Budget.antt =====
-- The hits of one window and of several keys, in backend/src/realtime/rateLimit.ts.
use stellar_tipz.Base.{
  ℕ, ◌+◌, ◌-◌, ◌<◌, min, ◌≡◌, ◌≢◌, some, List, [], ◌∷◌, arith, length, All, if◌then◌else◌, ltb,
}
use stellar_tipz.Base.Text.{String, eq_iff, eq_refl}
use stellar_tipz.Common.RateLimit.{Limiter, Window, consume, consume_all}

-- One hit inside a window: it is allowed exactly while the count is below the maximum, it then
-- raises the count by one, and it never moves the window.
consume_inside :
    (key : String) (now : ℕ) (l : Limiter) (w : Window)
    → l.hits key ≡ some w
    → now < w.reset_at
    → ((consume key now l).0 ≡ ltb w.count l.max)
      × ((consume key now l).1.hits key
          ≡ some (record {
            count = if ltb w.count l.max then w.count + 1 else w.count;
            reset_at = w.reset_at;
          }))
      × ((consume key now l).1.max ≡ l.max)
unfolding consume
consume_inside key now l w e h = ground (arith, eq_refl key)

-- From an entry with `w.count` hits, of any hits of the key before the window's end exactly the
-- first `max - w.count` are allowed.
pub consume_all_budget :
    (key : String) (times : List ℕ) (l : Limiter) (w : Window)
    → l.hits key ≡ some w
    → All (λ t. t < w.reset_at) times
    → (consume_all key times l).0 ≡ min (length times) (l.max - w.count)
unfolding consume_all
consume_all_budget key [] l w e h = omega arith
consume_all_budget key (now ∷ times) l w e h =
    let step = consume_inside key now l w e h.0 in
    let rest = consume_all_budget key times (consume key now l).1 _ step.1 h.1 in
    ground (arith, step, rest)

-- A hit of one key leaves the answer that another key gets, at any time, as it was.
consume_other :
    (key j : String) (now later : ℕ) (l : Limiter)
    → key ≢ j
    → (consume j later (consume key now l).1).0 ≡ (consume j later l).0
unfolding consume
consume_other key j now later l ne = ground (arith, eq_iff key j)
