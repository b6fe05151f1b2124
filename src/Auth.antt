-- ===== src/Auth.antt =====
-- Signing in with a wallet and keeping the session (backend/src/modules/auth/auth.service.ts). Times
-- are milliseconds; random nonces, tokens and ids are numbers that were never given out before, by
-- `next`. The device and the address of the client, which are only shown, are left out, and so is the
-- access token, a JWT that no table holds.
pub mod Limits
pub mod Tokens
pub mod Challenges
pub mod Families
pub mod Race
pub mod Signed
pub mod Once
pub mod Requests
pub mod Invariants
mod Tests
use stellar_tipz.Base.{ℕ, Bool, true, false, Option, none, some, List}
use stellar_tipz.Base.Text.{String}

pub record AuthChallenge : Type 0 where
  pub stellar_address : String
  pub challenge : ℕ
  pub network : String
  pub expires_at : ℕ
  pub used_at : Option ℕ

-- `family_id` is the session's first id; a row without it would stand for its `sessionId`.
pub record RefreshToken : Type 0 where
  pub id : ℕ
  pub user_id : ℕ
  pub session_id : ℕ
  pub family_id : ℕ
  pub hashed_token : ℕ
  pub expires_at : ℕ
  pub revoked_at : Option ℕ
  pub last_used_at : ℕ

-- A counter of Redis with the time at which it vanishes.
pub record Counter : Type 0 where
  pub count : ℕ
  pub expires_at : Option ℕ

pub data LimitScope : Type 0 where
  challenge_addr challenge_ip verify_addr verify_ip : LimitScope

pub record AuthDb : Type 0 where
  pub next : ℕ
  pub challenges : List AuthChallenge
  pub tokens : List RefreshToken
  pub users : String → Option ℕ
  pub counters : LimitScope → String → Option Counter

pub data AuthError : Type 0 where
  bad_request unauthorized conflict too_many_requests : AuthError

pub data AuthResult {ℓ} (A : Type ℓ) : Type ℓ where
  ok : A → AuthResult A
  error : AuthError → AuthResult A

-- The part of the environment that the service reads, with SHA-256 of a token and the passphrases
-- of the networks, which the Stellar SDK holds.
pub record AuthConfig : Type 0 where
  pub hash_token : ℕ → ℕ
  pub testnet : String
  pub futurenet : String
  pub public : String
  pub stellar_network : String
  pub challenge_ttl_seconds : ℕ
  pub refresh_ttl_ms : ℕ
  pub window_seconds : ℕ
  pub limit_of : LimitScope → ℕ
