-- ===== src/Auth/Limits.antt =====
-- The limits per address and per client: `checkAndIncrementRateLimit` of
-- backend/src/modules/auth/auth.service.ts.
use stellar_tipz.Base.{ℕ, ◌+◌, ◌*◌, Bool, false, Option, none, some, leb, ◌&&◌, ◌==◌, if◌then◌else◌}
use stellar_tipz.Base.Text.{String, str_eq}
use stellar_tipz.Auth.{
  Counter, LimitScope, challenge_addr, challenge_ip, verify_addr, verify_ip, AuthDb, AuthConfig,
}

abbrev pub scope_number : LimitScope → ℕ
scope_number challenge_addr = 0
scope_number challenge_ip = 1
scope_number verify_addr = 2
scope_number verify_ip = 3

-- What Redis has under a key now.
unfoldable pub live_counter : ℕ → Option Counter → Option Counter
live_counter now none = none
live_counter now (some c) = elim c.expires_at [
  | none ↦ some c
  | some t ↦ if leb t now then none else some c
]

-- INCR, and EXPIRE after the first.
unfoldable pub bump : ℕ → ℕ → Option Counter → Counter
bump window now none = record { count = 1; expires_at = some (now + window * 1000) }
bump window now (some c) = record c { count = c.count + 1 }

abbrev pub put_counter : LimitScope → String → Counter → AuthDb → AuthDb
put_counter scope key c db = record db {
  counters = λ s j.
      if (scope_number scope == scope_number s) && str_eq key j then some c else db.counters s j;
}

-- Is the request within the limit? The counter moves in any case.
unfoldable pub check_and_increment_rate_limit :
    AuthConfig → LimitScope → String → ℕ → AuthDb → Bool × AuthDb
unfolding live_counter bump
check_and_increment_rate_limit config scope key now db =
    let c = bump config.window_seconds now (live_counter now (db.counters scope key)) in
    (leb c.count (config.limit_of scope), put_counter scope key c db)

-- Two limits, the second asked only within the first.
unfoldable pub within_limits :
    AuthConfig → LimitScope → String → LimitScope → String → ℕ → AuthDb → Bool × AuthDb
unfolding check_and_increment_rate_limit
within_limits config first address second ip now db =
    let (fine, db') = check_and_increment_rate_limit config first address now db in
    if fine then check_and_increment_rate_limit config second ip now db' else (false, db')
