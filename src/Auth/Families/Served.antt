-- ===== src/Auth/Families/Served.antt =====
-- What the requests of backend/src/modules/auth/auth.service.ts do to the live tokens of a family.
use stellar_tipz.Base.{
  ℕ, ◌≤◌, ◌≡◌, refl, Bool, Option, none, some, List, arith, ltb, when_some, if◌then◌else◌,
}
use stellar_tipz.Base.Text.{String}
use stellar_tipz.Auth.{RefreshToken, AuthDb, AuthConfig, error, unauthorized}
use stellar_tipz.Auth.Tokens.{
  is_some, find_token, revoke_family, Presented, unknown, expired, reused, usable, present_token,
  refresh_presented, refresh_token,
}
use stellar_tipz.Auth.Challenges.{SignedMessage}
use stellar_tipz.Auth.Requests.{Request, empty_db, serve_all}
use stellar_tipz.Auth.Families.{count_live, Below, count-revoke_family, found_by_id}
use stellar_tipz.Auth.Invariants.{Keeps, serve_all-Keeps}
use stellar_tipz.Auth.Families.Rotation.{
  Holds, Holds-same, Holds-next, start_session-Holds, rotate_token-Holds, revoke_family-Holds,
  logout_id-Holds,
}

module _ (config : AuthConfig) (family most : ℕ) where
  Holds-Keeps : Keeps config (Holds family most)
  Holds-Keeps = record {
    counted = λ db cs h. Holds-same family most db _ refl refl h;
    user_added = λ db us h. Holds-next family most db _ refl refl h;
    filtered = λ test db h. Holds-same family most db _ refl refl h;
    created = λ c db e h. Holds-next family most db _ refl refl h;
    marked = λ nonce now db h. Holds-same family most db _ refl refl h;
    session = start_session-Holds family most config;
    rotated = rotate_token-Holds family most config;
    family_revoked = revoke_family-Holds family most;
    logged_out = logout_id-Holds family most;
  }

pub serve_all-Holds :
    (verify_signature : String → SignedMessage → ℕ → Bool) (config : AuthConfig) (family most : ℕ)
    (rs : List (Request × ℕ)) (db : AuthDb)
    → Holds family most db
    → Holds family most (serve_all verify_signature config rs db)
serve_all-Holds verify_signature config family most =
    serve_all-Keeps verify_signature config (Holds family most) (Holds-Keeps config family most)

pub empty-Holds : (family : ℕ) → Holds family 1 empty_db
unfolding Below count_live
empty-Holds family = record { below = tt; count = omega arith; old = λ z. absurd (omega arith) }

-- A token that is reused is one of the table.
unfoldable pub looked_at : ℕ → Option RefreshToken → Presented
looked_at now o = when_some o unknown (λ t.
    if ltb t.expires_at now then expired else if is_some t.revoked_at then reused t else usable t)

looked_reused :
    (now : ℕ) (t : RefreshToken) (o : Option RefreshToken) → looked_at now o ≡ reused t → o ≡ some t
unfolding looked_at
looked_reused now t none e = absurd (ground arith)
looked_reused now t (some u) e = ground (arith, e)

present_reused :
    (config : AuthConfig) (token now : ℕ) (t : RefreshToken) (db : AuthDb)
    → present_token config token now db ≡ reused t
    → find_token (config.hash_token token) db.tokens ≡ some t
unfolding present_token looked_at
present_reused config token now t db e =
    looked_reused now t (find_token (config.hash_token token) db.tokens) e

module _ (verify_signature : String → SignedMessage → ℕ → Bool) (config : AuthConfig) where
  -- Whatever requests are served from an empty database, one after the other, at most one token of a
  -- family is not revoked.
  pub one_live_token :
      (rs : List (Request × ℕ)) (family : ℕ)
      → count_live family (serve_all verify_signature config rs empty_db).tokens ≤ 1
  one_live_token rs family =
      (serve_all-Holds verify_signature config family 1 rs empty_db (empty-Holds family)).count

  -- After any requests, when a token is presented that was revoked and has not expired, the refresh is
  -- refused, and from then on, whatever is served, no token of its family is live.
  pub reuse_ends_family :
      (before after : List (Request × ℕ)) (token now : ℕ) (t : RefreshToken)
      → let db = serve_all verify_signature config before empty_db in
        let (r, db') = refresh_token config token now db in
        present_token config token now db ≡ reused t
        → (r ≡ error unauthorized)
          × (count_live t.family_id (serve_all verify_signature config after db').tokens ≡ 0)
  unfolding refresh_token refresh_presented
  reuse_ends_family before after token now t e =
      let db = serve_all verify_signature config before empty_db in
      let h =
        serve_all-Holds verify_signature config t.family_id 1 before empty_db
          (empty-Holds t.family_id) in
      let (_, lt, older) =
        found_by_id db.next (config.hash_token token) t db.tokens h.below
          (present_reused config token now t db e) in
      let revoked : AuthDb = record db { tokens = revoke_family t.family_id now db.tokens } in
      let dead : Holds t.family_id 0 revoked = record {
        below = (revoke_family-Holds t.family_id 1 t.family_id now db h).below;
        count = let z = count-revoke_family t.family_id now db.tokens in omega arith;
        old = λ _. omega arith;
      } in
      let none_left =
        (serve_all-Holds verify_signature config t.family_id 0 after revoked dead).count in
      rw e (refl, omega arith)
