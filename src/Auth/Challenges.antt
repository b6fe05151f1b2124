-- ===== src/Auth/Challenges.antt =====
-- Challenges: issue, verification of the signature with sign-in, and clean-up (`createChallenge`,
-- `verifyChallenge` and `pruneExpiredChallenges` of backend/src/modules/auth/auth.service.ts). The check
-- of an ed25519 signature and the text of a message are parameters; the comparison of addresses, in
-- constant time, is that of texts. The transactions run as one.
use stellar_tipz.Base.{
  ℕ, ◌+◌, ◌*◌, Bool, not, ◌&&◌, Option, none, some, List, ◌∷◌, ltb, ◌==◌, find, update_where,
  filter, when_some, if◌then◌else◌,
}
use stellar_tipz.Base.Text.{String, str_eq}
use stellar_tipz.Auth.{
  AuthChallenge, challenge_addr, challenge_ip, verify_addr, verify_ip, AuthDb, AuthError,
  bad_request, unauthorized, conflict, too_many_requests, AuthResult, ok, error, AuthConfig,
}
use stellar_tipz.Auth.Limits.{within_limits}
use stellar_tipz.Auth.Tokens.{is_some, start_session}

-- The lines of the text that a wallet signs; the first, the domain, is the same in all.
pub record SignedMessage : Type 0 where
  pub wallet : String
  pub network : String
  pub nonce : ℕ
  pub expires : ℕ

unfoldable pub resolve_network_passphrase : AuthConfig → String → Option String
resolve_network_passphrase config network =
    if str_eq network "TESTNET"
    then some config.testnet
    else if str_eq network "FUTURENET"
    then some config.futurenet
    else if str_eq network "MAINNET"
    then some config.public
    else none

-- `network || env.STELLAR_NETWORK`
abbrev pub bound_network : AuthConfig → Option String → String
bound_network config none = config.stellar_network
bound_network config (some network) = if str_eq network "" then config.stellar_network else network

-- `deleteMany` by a test.
abbrev pub delete_challenges : (AuthChallenge → Bool) → AuthDb → AuthDb
delete_challenges old db = record db { challenges = filter (λ c. not (old c)) db.challenges }

-- An unused challenge of the address that can still be signed.
unfoldable pub is_open : String → String → ℕ → AuthChallenge → Bool
is_open address network now c =
    str_eq c.stellar_address address
    && str_eq c.network network
    && not (is_some c.used_at)
    && ltb now c.expires_at

unfoldable pub find_or_create_challenge :
    AuthConfig → String → String → ℕ → AuthDb → AuthChallenge × AuthDb
unfolding is_open
find_or_create_challenge config address network now db =
    when_some (find (is_open address network now) db.challenges)
      (let c : AuthChallenge = record {
        stellar_address = address;
        challenge = db.next;
        network = network;
        expires_at = now + config.challenge_ttl_seconds * 1000;
        used_at = none;
      } in
        (c, record db { next = db.next + 1; challenges = c ∷ db.challenges }))
      (λ c. (c, db))

unfoldable pub create_challenge :
    AuthConfig → String → Option String → String → ℕ → AuthDb → AuthResult AuthChallenge × AuthDb
unfolding find_or_create_challenge within_limits resolve_network_passphrase
create_challenge config address network ip now db =
    let bound = bound_network config network in
    when_some (resolve_network_passphrase config bound) (error bad_request, db)
      (λ passphrase.
        let (fine, limited) = within_limits config challenge_addr address challenge_ip ip now db in
        if fine
        then (let (c, db') = find_or_create_challenge config address bound now (
              delete_challenges (λ c. str_eq c.stellar_address address && ltb c.expires_at now)
                limited) in
            (ok c, db'))
        else (error too_many_requests, limited))

unfoldable pub find_challenge : ℕ → List AuthChallenge → Option AuthChallenge
find_challenge nonce cs = find (λ c. c.challenge == nonce) cs

unfoldable pub mark_used : ℕ → ℕ → List AuthChallenge → List AuthChallenge
mark_used nonce now cs =
    update_where (λ c. c.challenge == nonce) (λ c. record c { used_at = some now }) cs

-- The user of an address, created if there is none.
unfoldable pub upsert_user : String → AuthDb → ℕ × AuthDb
upsert_user address db =
    when_some (db.users address)
      (
        db.next,
        record db {
          next = db.next + 1;
          users = λ a. if str_eq address a then some db.next else db.users a;
        },
      )
      (λ user. (user, db))

-- The transaction of a sign-in.
unfoldable pub sign_in : AuthConfig → String → ℕ → ℕ → AuthDb → AuthResult ℕ × AuthDb
unfolding find_challenge mark_used upsert_user start_session
sign_in config address nonce now db =
    when_some (find_challenge nonce db.challenges) (error conflict, db)
      (λ fresh.
        if is_some fresh.used_at
        then (error conflict, db)
        else (let (user, db') =
              upsert_user address
                (record db { challenges = mark_used fresh.challenge now db.challenges }) in
            let (token, db'') = start_session config user now db' in (ok token, db'')))

-- The tests on the row of a challenge, up to the signature.
unfoldable pub check_challenge :
    (String → SignedMessage → ℕ → Bool)
    → AuthConfig
    → String
    → ℕ
    → String
    → ℕ
    → AuthChallenge
    → Option AuthError
unfolding resolve_network_passphrase
check_challenge verify_signature config address signature network now c =
    if not (str_eq c.stellar_address address)
    then some bad_request
    else if not (str_eq c.network network)
    then some bad_request
    else if is_some c.used_at
    then some conflict
    else if ltb c.expires_at now
    then some bad_request
    else when_some (resolve_network_passphrase config c.network) (some bad_request) (λ passphrase.
      let message : SignedMessage = record {
        wallet = address;
        network = passphrase;
        nonce = c.challenge;
        expires = c.expires_at;
      } in
      if verify_signature address message signature then none else some unauthorized)

unfoldable pub verify_challenge :
    (String → SignedMessage → ℕ → Bool)
    → AuthConfig
    → String
    → ℕ
    → ℕ
    → Option String
    → String
    → ℕ
    → AuthDb
    → AuthResult ℕ × AuthDb
unfolding find_challenge check_challenge sign_in within_limits resolve_network_passphrase
verify_challenge verify_signature config address signature nonce network ip now db =
    let expected = bound_network config network in
    when_some (resolve_network_passphrase config expected) (error bad_request, db)
      (λ passphrase.
        let (fine, limited) = within_limits config verify_addr address verify_ip ip now db in
        if fine
        then when_some (find_challenge nonce limited.challenges) (error bad_request, limited)
            (λ c.
              when_some (check_challenge verify_signature config address signature expected now c)
                (sign_in config address c.challenge now limited) (λ e. (error e, limited)))
        else (error too_many_requests, limited))

unfoldable pub prune_expired_challenges : ℕ → AuthDb → AuthDb
prune_expired_challenges now db = delete_challenges (λ c. ltb c.expires_at now) db
