-- ===== src/Common/RateLimit/Sweep.antt =====
-- `sweep` of backend/src/realtime/rateLimit.ts.
use stellar_tipz.Base.{ℕ, ◌≤◌, ◌≡◌, arith}
use stellar_tipz.Base.Text.{String, eq_refl}
use stellar_tipz.Common.RateLimit.{Limiter, consume, sweep}

-- A hit at the time of a sweep or later gets the answer that it would have had without the sweep,
-- and leaves the same entry under its key.
consume-sweep :
    (key : String) (swept now : ℕ) (l : Limiter)
    → swept ≤ now
    → ((consume key now (sweep swept l)).0 ≡ (consume key now l).0)
      × ((consume key now (sweep swept l)).1.hits key ≡ (consume key now l).1.hits key)
unfolding consume sweep
consume-sweep key swept now l h = ground (arith, eq_refl key)
