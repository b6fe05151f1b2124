-- ===== src/Auth/Invariants.antt =====
-- What all requests keep, from what each write keeps (backend/src/modules/auth/auth.service.ts).
use stellar_tipz.Base.{
  ℕ, ◌+◌, ◌≡◌, refl, inl, inr, Bool, Option, some, List, [], ◌∷◌, find, filter, ltb, Bool-cases,
  Option-cases,
}
use stellar_tipz.Base.Text.{String}
use stellar_tipz.Auth.{
  AuthChallenge, RefreshToken, Counter, AuthDb, AuthConfig, LimitScope, challenge_addr,
  challenge_ip, verify_addr, verify_ip,
}
use stellar_tipz.Auth.Limits.{within_limits, check_and_increment_rate_limit}
use stellar_tipz.Auth.Tokens.{
  is_some, find_token, revoke_family, logout_id, start_session, present_token, rotate_token,
  refresh_presented, refresh_token, revoke_refresh_token,
}
use stellar_tipz.Auth.Challenges.{
  SignedMessage, resolve_network_passphrase, bound_network, is_open, find_challenge, mark_used,
  check_challenge, create_challenge, find_or_create_challenge, verify_challenge, sign_in,
  upsert_user, prune_expired_challenges,
}
use stellar_tipz.Auth.Requests.{Request, create, verify, refresh, revoke, prune, serve, serve_all}

-- A property of the database that each write of the service keeps.
pub record Keeps (config : AuthConfig) (P : AuthDb → Type 0) : Type 0 where
  pub counted :
      (db : AuthDb) (cs : LimitScope → String → Option Counter)
      → P db
      → P (record db { counters = cs })
  pub user_added :
      (db : AuthDb) (us : String → Option ℕ)
      → P db
      → P (record db { next = db.next + 1; users = us })
  pub filtered :
      (test : AuthChallenge → Bool) (db : AuthDb)
      → P db
      → P (record db { challenges = filter test db.challenges })
  pub created :
      (c : AuthChallenge) (db : AuthDb)
      → c.challenge ≡ db.next
      → P db
      → P (record db { next = db.next + 1; challenges = c ∷ db.challenges })
  pub marked :
      (nonce now : ℕ) (db : AuthDb)
      → P db
      → P (record db { challenges = mark_used nonce now db.challenges })
  pub session : (user now : ℕ) (db : AuthDb) → P db → P (start_session config user now db).1
  pub rotated :
      (now hashed : ℕ) (t : RefreshToken) (db : AuthDb)
      → find_token hashed db.tokens ≡ some t
      → P db
      → P (rotate_token config now t db).1
  pub family_revoked :
      (family now : ℕ) (db : AuthDb)
      → P db
      → P (record db { tokens = revoke_family family now db.tokens })
  pub logged_out :
      (id now : ℕ) (db : AuthDb) → P db → P (record db { tokens = logout_id id now db.tokens })

module _ (verify_signature : String → SignedMessage → ℕ → Bool) (config : AuthConfig)
    (P : AuthDb → Type 0) (k : Keeps config P) where
  check_and_increment-Keeps :
      (scope : LimitScope) (key : String) (now : ℕ) (db : AuthDb)
      → P db
      → P (check_and_increment_rate_limit config scope key now db).1
  unfolding check_and_increment_rate_limit
  check_and_increment-Keeps scope key now db h = k.counted db _ h

  within_limits-Keeps :
      (first : LimitScope) (address : String) (second : LimitScope) (ip : String) (now : ℕ)
      (db : AuthDb)
      → P db
      → P (within_limits config first address second ip now db).1
  unfolding within_limits
  within_limits-Keeps first address second ip now db h =
      elim (Bool-cases (check_and_increment_rate_limit config first address now db).0) [
        | inl p ↦ rw p (
            check_and_increment-Keeps second ip now _
              (check_and_increment-Keeps first address now db h))
        | inr p ↦ rw p (check_and_increment-Keeps first address now db h)
      ]

  find_or_create-Keeps :
      (address network : String) (now : ℕ) (db : AuthDb)
      → P db
      → P (find_or_create_challenge config address network now db).1
  unfolding find_or_create_challenge
  find_or_create-Keeps address network now db h =
      elim (Option-cases (find (is_open address network now) db.challenges)) [
        | inl e ↦ rw e (k.created _ db refl h)
        | inr (c, e) ↦ rw e h
      ]

  upsert_user-Keeps : (address : String) (db : AuthDb) → P db → P (upsert_user address db).1
  unfolding upsert_user
  upsert_user-Keeps address db h = elim (Option-cases (db.users address)) [
    | inl e ↦ rw e (k.user_added db _ h)
    | inr (user, e) ↦ rw e h
  ]

  sign_in-Keeps :
      (address : String) (nonce now : ℕ) (db : AuthDb)
      → P db
      → P (sign_in config address nonce now db).1
  unfolding sign_in
  sign_in-Keeps address nonce now db h = elim (Option-cases (find_challenge nonce db.challenges)) [
    | inl e ↦ rw e h
    | inr (c, e) ↦ rw e (elim (Bool-cases (is_some c.used_at)) [
      | inl p ↦ rw p h
      | inr p ↦
          let marked = record db { challenges = mark_used c.challenge now db.challenges } in
          let (user, db') = upsert_user address marked in
          rw p (
            k.session user now db'
              (upsert_user-Keeps address marked (k.marked c.challenge now db h)))
    ])
  ]

  create_challenge-Keeps :
      (address : String) (network : Option String) (ip : String) (now : ℕ) (db : AuthDb)
      → P db
      → P (create_challenge config address network ip now db).1
  unfolding create_challenge
  create_challenge-Keeps address network ip now db h =
      let limited = within_limits-Keeps challenge_addr address challenge_ip ip now db h in
      elim (Option-cases (resolve_network_passphrase config (bound_network config network))) [
        | inl e ↦ rw e h
        | inr (passphrase, e) ↦
            rw e
              (elim (Bool-cases
                (within_limits config challenge_addr address challenge_ip ip now db).0) [
                  | inl p ↦ rw p (find_or_create-Keeps address _ now _ (k.filtered _ _ limited))
                  | inr p ↦ rw p limited
                ])
      ]

  pub verify_challenge-Keeps :
      (address : String) (signature nonce : ℕ) (network : Option String) (ip : String) (now : ℕ)
      (db : AuthDb)
      → P db
      → P (verify_challenge verify_signature config address signature nonce network ip now db).1
  unfolding verify_challenge
  verify_challenge-Keeps address signature nonce network ip now db h =
      let expected = bound_network config network in
      let (fine, db') = within_limits config verify_addr address verify_ip ip now db in
      let limited = within_limits-Keeps verify_addr address verify_ip ip now db h in
      elim (Option-cases (resolve_network_passphrase config expected)) [
        | inl e ↦ rw e h
        | inr (passphrase, e) ↦ rw e (elim (Bool-cases fine) [
          | inr p ↦ rw p limited
          | inl p ↦ rw p (elim (Option-cases (find_challenge nonce db'.challenges)) [
            | inl f ↦ rw f limited
            | inr (c, f) ↦
                rw f
                  (elim (Option-cases
                    (check_challenge verify_signature config address signature expected now c)) [
                      | inl g ↦ rw g (sign_in-Keeps address c.challenge now db' limited)
                      | inr (g, g') ↦ rw g' limited
                    ])
          ])
        ])
      ]

  refresh_token-Keeps :
      (token now : ℕ) (db : AuthDb) → P db → P (refresh_token config token now db).1
  unfolding refresh_token present_token refresh_presented find_token
  refresh_token-Keeps token now db h =
      elim (Option-cases (find_token (config.hash_token token) db.tokens)) [
        | inl e ↦ rw e h
        | inr (t, e) ↦ rw e (elim (Bool-cases (ltb t.expires_at now)) [
          | inl p ↦ rw p h
          | inr p ↦ rw p (elim (Bool-cases (is_some t.revoked_at)) [
            | inl q ↦ rw q (k.family_revoked t.family_id now db h)
            | inr q ↦ rw q (k.rotated now (config.hash_token token) t db e h)
          ])
        ])
      ]

  revoke_refresh_token-Keeps :
      (token now : ℕ) (db : AuthDb) → P db → P (revoke_refresh_token config token now db).1
  unfolding revoke_refresh_token find_token
  revoke_refresh_token-Keeps token now db h =
      elim (Option-cases (find_token (config.hash_token token) db.tokens)) [
        | inl e ↦ rw e h
        | inr (t, e) ↦ rw e (elim (Bool-cases (is_some t.revoked_at)) [
          | inl p ↦ rw p h
          | inr p ↦ rw p (k.logged_out t.id now db h)
        ])
      ]

  serve-Keeps :
      (r : Request) (now : ℕ) (db : AuthDb) → P db → P (serve verify_signature config r now db)
  unfolding serve prune_expired_challenges
  serve-Keeps (create address network ip) now db h =
      create_challenge-Keeps address network ip now db h
  serve-Keeps (verify address signature nonce network ip) now db h =
      verify_challenge-Keeps address signature nonce network ip now db h
  serve-Keeps (refresh token) now db h = refresh_token-Keeps token now db h
  serve-Keeps (revoke token) now db h = revoke_refresh_token-Keeps token now db h
  serve-Keeps prune now db h = k.filtered _ db h

  pub serve_all-Keeps :
      (rs : List (Request × ℕ)) (db : AuthDb) → P db → P (serve_all verify_signature config rs db)
  unfolding serve_all
  serve_all-Keeps [] db h = h
  serve_all-Keeps ((r, now) ∷ rs) db h =
      serve_all-Keeps rs (serve verify_signature config r now db) (serve-Keeps r now db h)
