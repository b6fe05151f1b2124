-- ===== src/Auth/Requests.antt =====
-- The requests that the authentication service answers, one after the other
-- (backend/src/modules/auth/auth.service.ts).
use stellar_tipz.Base.{ℕ, Bool, Option, none, List, [], ◌∷◌}
use stellar_tipz.Base.Text.{String}
use stellar_tipz.Auth.{AuthDb, AuthConfig}
use stellar_tipz.Auth.Tokens.{refresh_token, revoke_refresh_token}
use stellar_tipz.Auth.Challenges.{
  SignedMessage, create_challenge, verify_challenge, prune_expired_challenges,
}

pub data Request : Type 0 where
  create : String → Option String → String → Request
  verify : String → ℕ → ℕ → Option String → String → Request
  refresh : ℕ → Request
  revoke : ℕ → Request
  prune : Request

abbrev pub empty_db : AuthDb
empty_db = record {
  next = 0;
  challenges = [];
  tokens = [];
  users = λ a. none;
  counters = λ s j. none;
}

module _ (verify_signature : String → SignedMessage → ℕ → Bool) (config : AuthConfig) where
  unfoldable pub serve : Request → ℕ → AuthDb → AuthDb
  unfolding create_challenge verify_challenge refresh_token revoke_refresh_token
      prune_expired_challenges
  serve (create address network ip) now db = (create_challenge config address network ip now db).1
  serve (verify address signature nonce network ip) now db =
      (verify_challenge verify_signature config address signature nonce network ip now db).1
  serve (refresh token) now db = (refresh_token config token now db).1
  serve (revoke token) now db = (revoke_refresh_token config token now db).1
  serve prune now db = prune_expired_challenges now db

  -- Each request with its time.
  unfoldable pub serve_all : List (Request × ℕ) → AuthDb → AuthDb
  unfolding serve
  serve_all [] db = db
  serve_all ((r, now) ∷ rs) db = serve_all rs (serve r now db)
