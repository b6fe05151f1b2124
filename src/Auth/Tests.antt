-- ===== src/Auth/Tests.antt =====
-- The theorems on a wallet that signs in, refreshes its token and presents the old one again.
use stellar_tipz.Base.{
  ℕ, ◌+◌, ◌≤◌, ◌≡◌, ◌≢◌, refl, Bool, Option, none, some, List, [], ◌∷◌, arith, ◌==◌,
}
use stellar_tipz.Base.Text.{String}
use stellar_tipz.Auth.{RefreshToken, AuthConfig, ok, error, unauthorized}
use stellar_tipz.Auth.Limits.{live_counter, bump, check_and_increment_rate_limit, within_limits}
use stellar_tipz.Auth.Tokens.{
  find_token, find_token_by_id, revoke_id, generate_refresh_token, start_session, present_token,
  reread_token, write_rotation, rotate_token, refresh_presented, refresh_token,
}
use stellar_tipz.Auth.Challenges.{
  SignedMessage, resolve_network_passphrase, is_open, find_or_create_challenge, create_challenge,
  find_challenge, mark_used, upsert_user, sign_in, check_challenge, verify_challenge,
}
use stellar_tipz.Auth.Requests.{Request, create, verify, refresh, empty_db, serve, serve_all}
use stellar_tipz.Auth.Families.{count_live}
use stellar_tipz.Auth.Families.Served.{one_live_token, reuse_ends_family}
use stellar_tipz.Auth.Race.{rotations_race}
use stellar_tipz.Auth.Signed.{SignedIn, verified_session}
use stellar_tipz.Auth.Once.{signs_in_once}

-- A signature that is the nonce of the text.
abbrev sign : String → SignedMessage → ℕ → Bool
sign address message signature = message.nonce == signature

abbrev config : AuthConfig
config = record {
  hash_token = λ token. token + 100;
  testnet = "Test SDF Network ; September 2015";
  futurenet = "Test SDF Future Network ; October 2022";
  public = "Public Global Stellar Network ; September 2015";
  stellar_network = "TESTNET";
  challenge_ttl_seconds = 300;
  refresh_ttl_ms = 604800000;
  window_seconds = 60;
  limit_of = λ scope. 5;
}

-- The nonce is 0, the user 1, the session 2 and the first token 3.
abbrev asked : List (Request × ℕ)
asked = (create "GA" none "10.0.0.1", 0) ∷ []

abbrev signed_in : List (Request × ℕ)
signed_in = (create "GA" none "10.0.0.1", 0) ∷ (verify "GA" 0 0 none "10.0.0.1", 1000) ∷ []

abbrev refreshed : List (Request × ℕ)
refreshed =
    (create "GA" none "10.0.0.1", 0)
    ∷ (verify "GA" 0 0 none "10.0.0.1", 1000)
    ∷ (refresh 3, 2000)
    ∷ []

abbrev first_token : Option ℕ → ℕ → RefreshToken
first_token revoked used = record {
  id = 3;
  user_id = 1;
  session_id = 2;
  family_id = 2;
  hashed_token = 103;
  expires_at = 604801000;
  revoked_at = revoked;
  last_used_at = used;
}

one_live_token_example : count_live 2 (serve_all sign config refreshed empty_db).tokens ≤ 1
one_live_token_example = one_live_token sign config refreshed 2

reuse_ends_family_example :
    let (r, db') = refresh_token config 3 3000 (serve_all sign config refreshed empty_db) in
    (r ≡ error unauthorized)
    × (count_live 2 (serve_all sign config ((refresh 4, 4000) ∷ []) db').tokens ≡ 0)
unfolding serve_all serve create_challenge within_limits check_and_increment_rate_limit live_counter
    bump find_or_create_challenge is_open resolve_network_passphrase verify_challenge find_challenge
    check_challenge sign_in mark_used upsert_user start_session generate_refresh_token refresh_token
    refresh_presented rotate_token reread_token write_rotation find_token find_token_by_id revoke_id
    present_token
reuse_ends_family_example =
    reuse_ends_family sign config refreshed ((refresh 4, 4000) ∷ []) 3 3000
      (first_token (some 2000) 2000) refl

rotations_race_example :
    let db = serve_all sign config signed_in empty_db in
    let t = first_token none 1000 in
    let (first, db') = write_rotation config 2000 t t db in
    let (second, db'') = write_rotation config 2001 t t db' in
    (reread_token 2000 t db ≡ some t)
    × (reread_token 2001 t db ≡ some t)
    × (count_live 2 db''.tokens ≡ 2)
unfolding serve_all serve create_challenge within_limits check_and_increment_rate_limit live_counter
    bump find_or_create_challenge is_open resolve_network_passphrase verify_challenge find_challenge
    check_challenge sign_in mark_used upsert_user start_session generate_refresh_token find_token
    present_token
rotations_race_example =
    rotations_race sign config signed_in 3 2000 2001 (first_token none 1000) refl (omega arith)

verified_session_example :
    let db = serve_all sign config asked empty_db in
    let (r, db') = verify_challenge sign config "GA" 0 0 none "10.0.0.1" 1000 db in
    SignedIn sign config "GA" 0 0 none 1000 3 db db'
unfolding serve_all serve create_challenge within_limits check_and_increment_rate_limit live_counter
    bump find_or_create_challenge is_open resolve_network_passphrase verify_challenge find_challenge
    check_challenge sign_in mark_used upsert_user start_session generate_refresh_token
verified_session_example =
    verified_session sign config "GA" 0 0 none "10.0.0.1" 1000 3
      (serve_all sign config asked empty_db) refl

signs_in_once_example :
    let db = serve_all sign config asked empty_db in
    let (r, db') = verify_challenge sign config "GA" 0 0 none "10.0.0.1" 1000 db in
    let db'' = serve_all sign config ((refresh 3, 2000) ∷ []) db' in
    (verify_challenge sign config "GA" 0 0 none "10.0.0.2" 3000 db'').0 ≢ ok 5
unfolding serve_all serve create_challenge within_limits check_and_increment_rate_limit live_counter
    bump find_or_create_challenge is_open resolve_network_passphrase verify_challenge find_challenge
    check_challenge sign_in mark_used upsert_user start_session generate_refresh_token
signs_in_once_example =
    signs_in_once sign config asked ((refresh 3, 2000) ∷ []) "GA" "GA" 0 0 0 none none "10.0.0.1"
      "10.0.0.2" 1000 3000 3 5 refl
