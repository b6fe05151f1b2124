-- ===== src/Auth/Tokens.antt =====
-- Refresh tokens: issue, rotation with reuse detection, and logout
-- (`generateRefreshToken`, `refreshToken` and `revokeRefreshToken` of
-- backend/src/modules/auth/auth.service.ts). The transaction of a rotation is cut between its read and
-- its writes, since it runs under read committed.
use stellar_tipz.Base.{
  ℕ, ◌+◌, Bool, true, false, not, ◌&&◌, ◌||◌, Option, none, some, List, ◌∷◌, ltb, ◌==◌, find,
  update_where, when_some, if◌then◌else◌,
}
use stellar_tipz.Auth.{RefreshToken, AuthDb, unauthorized, AuthResult, ok, error, AuthConfig}

abbrev pub is_some {ℓ} : {A : Type ℓ} → Option A → Bool
is_some none = false
is_some (some a) = true

unfoldable pub find_token : ℕ → List RefreshToken → Option RefreshToken
find_token hashed ts = find (λ t. t.hashed_token == hashed) ts

unfoldable pub find_token_by_id : ℕ → List RefreshToken → Option RefreshToken
find_token_by_id id ts = find (λ t. t.id == id) ts

-- `updateMany` on the unrevoked rows of a family, and `update` on one row.
unfoldable pub revoke_family : ℕ → ℕ → List RefreshToken → List RefreshToken
revoke_family family now ts =
    update_where (λ t. t.family_id == family && not (is_some t.revoked_at))
      (λ t. record t { revoked_at = some now }) ts

unfoldable pub revoke_id : ℕ → ℕ → List RefreshToken → List RefreshToken
revoke_id id now ts =
    update_where (λ t. t.id == id) (λ t. record t { revoked_at = some now; last_used_at = now }) ts

-- A new row with a fresh id and a fresh token, which is the answer.
unfoldable pub generate_refresh_token : AuthConfig → ℕ → ℕ → ℕ → ℕ → AuthDb → ℕ × AuthDb
generate_refresh_token config user session family now db = (
  db.next,
  record db {
    next = db.next + 1;
    tokens =
        record {
          id = db.next;
          user_id = user;
          session_id = session;
          family_id = family;
          hashed_token = config.hash_token db.next;
          expires_at = now + config.refresh_ttl_ms;
          revoked_at = none;
          last_used_at = now;
        }
        ∷ db.tokens;
  },
)

-- A session of its own, as after signing in.
unfoldable pub start_session : AuthConfig → ℕ → ℕ → AuthDb → ℕ × AuthDb
unfolding generate_refresh_token
start_session config user now db =
    generate_refresh_token config user db.next db.next now (record db { next = db.next + 1 })

-- The first look at the presented token.
pub data Presented : Type 0 where
  unknown expired : Presented
  reused usable : RefreshToken → Presented

unfoldable pub present_token : AuthConfig → ℕ → ℕ → AuthDb → Presented
unfolding find_token
present_token config token now db =
    when_some (find_token (config.hash_token token) db.tokens) unknown (λ t.
      if ltb t.expires_at now then expired else if is_some t.revoked_at then reused t else usable t)

-- The read of the transaction: may the row be rotated?
unfoldable pub reread_token : ℕ → RefreshToken → AuthDb → Option RefreshToken
unfolding find_token_by_id
reread_token now t db =
    when_some (find_token_by_id t.id db.tokens) none
      (λ fresh. if is_some fresh.revoked_at || ltb fresh.expires_at now then none else some fresh)

-- Its writes.
unfoldable pub write_rotation : AuthConfig → ℕ → RefreshToken → RefreshToken → AuthDb → ℕ × AuthDb
unfolding revoke_id generate_refresh_token
write_rotation config now t fresh db =
    generate_refresh_token config fresh.user_id fresh.session_id t.family_id now
      (record db { tokens = revoke_id fresh.id now db.tokens })

unfoldable pub rotate_token : AuthConfig → ℕ → RefreshToken → AuthDb → AuthResult ℕ × AuthDb
unfolding reread_token write_rotation
rotate_token config now t db =
    when_some (reread_token now t db) (error unauthorized, db)
      (λ fresh. let (token, db') = write_rotation config now t fresh db in (ok token, db'))

-- What follows the first look.
unfoldable pub refresh_presented : AuthConfig → ℕ → Presented → AuthDb → AuthResult ℕ × AuthDb
unfolding rotate_token revoke_family
refresh_presented config now unknown db = (error unauthorized, db)
refresh_presented config now expired db = (error unauthorized, db)
refresh_presented config now (reused t) db =
    (error unauthorized, record db { tokens = revoke_family t.family_id now db.tokens })
refresh_presented config now (usable t) db = rotate_token config now t db

-- A whole refresh with no other request in between.
unfoldable pub refresh_token : AuthConfig → ℕ → ℕ → AuthDb → AuthResult ℕ × AuthDb
unfolding present_token refresh_presented
refresh_token config token now db =
    refresh_presented config now (present_token config token now db) db

-- The row's update sets `revokedAt` alone.
unfoldable pub logout_id : ℕ → ℕ → List RefreshToken → List RefreshToken
logout_id id now ts = update_where (λ t. t.id == id) (λ t. record t { revoked_at = some now }) ts

unfoldable pub revoke_refresh_token : AuthConfig → ℕ → ℕ → AuthDb → AuthResult (Unit {0}) × AuthDb
unfolding logout_id find_token
revoke_refresh_token config token now db =
    when_some (find_token (config.hash_token token) db.tokens) (error unauthorized, db)
      (λ t.
        if is_some t.revoked_at
        then (ok tt, db)
        else (ok tt, record db { tokens = logout_id t.id now db.tokens }))
