-- ===== src/Auth/Families/Rotation.antt =====
-- The operations on tokens of backend/src/modules/auth/auth.service.ts and the live tokens of a family.
use stellar_tipz.Base.{
  ℕ, ◌+◌, ◌≤◌, ◌<◌, ◌≡◌, refl, sym, ap, ◌∙◌, inl, inr, Bool, true, false, not, ◌&&◌, ◌||◌, Option,
  none, some, List, [], ◌∷◌, arith, ◌==◌, find, ltb, Bool-cases, Option-cases, when_some,
  when_some_elim, if◌then◌else◌,
}
use stellar_tipz.Auth.{RefreshToken, AuthDb, AuthConfig, AuthResult}
use stellar_tipz.Auth.Tokens.{
  is_some, find_token, find_token_by_id, revoke_family, logout_id, generate_refresh_token,
  start_session, reread_token, write_rotation, rotate_token,
}
use stellar_tipz.Auth.Families.{
  count_live, Below, Below-raise, Revokes, Below-update, count-update, count_above, found_by_id,
  count-revoke_id,
}

-- At most `most` tokens of the family are live; if none may be, the family is an old one.
pub record Holds (family most : ℕ) (db : AuthDb) : Type 0 where
  pub below : Below db.next db.tokens
  pub count : count_live family db.tokens ≤ most
  pub old : most ≡ 0 → family < db.next

revoking : (now : ℕ) → Revokes (λ t. record t { revoked_at = some now; last_used_at = now })
revoking now = record { same_id = λ t. refl; same_family = λ t. refl; revoked = λ t. refl }

revoking_only : (now : ℕ) → Revokes (λ t. record t { revoked_at = some now })
revoking_only now = record { same_id = λ t. refl; same_family = λ t. refl; revoked = λ t. refl }

pub reread_found :
    (now : ℕ) (t : RefreshToken) (db : AuthDb)
    → find_token_by_id t.id db.tokens ≡ some t
    → reread_token now t db
      ≡ (if is_some t.revoked_at || ltb t.expires_at now then none else some t)
unfolding reread_token
reread_found now t db again = rw again refl

some_inj : (t u : RefreshToken) → some t ≡ some u → t ≡ u
some_inj t u e = cc

pub unrevoked : (o : Option ℕ) → is_some o ≡ false → o ≡ none
unrevoked none e = refl
unrevoked (some t) e = absurd (ground arith)

reread_live :
    (now : ℕ) (t fresh : RefreshToken) (db : AuthDb)
    → find_token_by_id t.id db.tokens ≡ some t
    → reread_token now t db ≡ some fresh
    → (fresh ≡ t) × (fresh.revoked_at ≡ none)
reread_live now t fresh db again e =
    let e' = sym (reread_found now t db again) ∙ e in
    elim (Bool-cases (is_some t.revoked_at || ltb t.expires_at now)) [
      | inl p ↦ absurd (ground (arith, p, e'))
      | inr p ↦
          let same : t ≡ fresh =
            some_inj t fresh (ap (λ b. if b then none else some t) (sym p) ∙ e') in
          let kept : is_some t.revoked_at ≡ false = ground (arith, p) in
          (sym same, rw (sym same) (unrevoked t.revoked_at kept))
    ]

module _ (family most : ℕ) where
  pub Holds-same :
      (db db' : AuthDb)
      → db'.next ≡ db.next
      → db'.tokens ≡ db.tokens
      → Holds family most db
      → Holds family most db'
  Holds-same db db' n e h = record {
    below = rw (n, e) h.below;
    count = rw e h.count;
    old = λ z. rw n (h.old z);
  }

  pub Holds-next :
      (db db' : AuthDb)
      → db'.next ≡ db.next + 1
      → db'.tokens ≡ db.tokens
      → Holds family most db
      → Holds family most db'
  Holds-next db db' n e h = record {
    below = rw (n, e) (Below-raise db.next (db.next + 1) db.tokens (omega arith) h.below);
    count = rw e h.count;
    old = λ z. let lt = h.old z in omega arith;
  }

  Holds-update :
      (test : RefreshToken → Bool) (change : RefreshToken → RefreshToken) (db : AuthDb)
      → Revokes change
      → Holds family most db
      → Holds family most
          (record db { tokens = stellar_tipz.Base.update_where test change db.tokens })
  Holds-update test change db c h = record {
    below = Below-update test change c db.next db.tokens h.below;
    count =
        let le = count-update test change c family db.tokens in let le' = h.count in omega arith;
    old = h.old;
  }

  pub start_session-Holds :
      (config : AuthConfig) (user now : ℕ) (db : AuthDb)
      → Holds family most db
      → Holds family most (start_session config user now db).1
  unfolding start_session generate_refresh_token Below count_live
  start_session-Holds config user now db h = record {
    below = (
      omega arith,
      omega arith,
      Below-raise db.next (db.next + 1) db.tokens (omega arith) h.below,
    );
    count = elim (Bool-cases (db.next == family)) [
      | inl e ↦
          let none_yet = count_above db.next family db.tokens h.below (ground arith) in
          let old = h.old in ground arith
      | inr e ↦ let le = h.count in rw e (omega arith)
    ];
    old = λ z. let lt = h.old z in omega arith;
  }

  -- The write of a rotation whose row is still live.
  write_rotation-Holds :
      (config : AuthConfig) (now hashed : ℕ) (t : RefreshToken) (db : AuthDb)
      → find_token hashed db.tokens ≡ some t
      → t.revoked_at ≡ none
      → Holds family most db
      → Holds family most (write_rotation config now t t db).1
  unfolding write_rotation generate_refresh_token Below count_live
  write_rotation-Holds config now hashed t db found live h =
      let (again, lt, older) = found_by_id db.next hashed t db.tokens h.below found in
      let revoked = Holds-update _ _ db (revoking now) h in
      record {
        below = (omega arith, omega arith, revoked.below);
        count =
            let e = count-revoke_id db.next family now t db.tokens h.below again live in
            let le = h.count in ground arith;
        old = λ z. let old = h.old z in omega arith;
      }

  pub rotate_token-Holds :
      (config : AuthConfig) (now hashed : ℕ) (t : RefreshToken) (db : AuthDb)
      → find_token hashed db.tokens ≡ some t
      → Holds family most db
      → Holds family most (rotate_token config now t db).1
  unfolding rotate_token
  rotate_token-Holds config now hashed t db found h =
      let (again, _, _) = found_by_id db.next hashed t db.tokens h.below found in
      when_some_elim (λ (p : AuthResult ℕ × AuthDb). Holds family most p.1) (reread_token now t db)
        _ _ (λ _. h)
        (λ fresh e.
          let (same, live) = reread_live now t fresh db again e in
          let live' : t.revoked_at ≡ none = sym (ap (λ u. u.revoked_at) same) ∙ live in
          rw same (write_rotation-Holds config now hashed t db found live' h))

  pub revoke_family-Holds :
      (revoked now : ℕ) (db : AuthDb)
      → Holds family most db
      → Holds family most (record db { tokens = revoke_family revoked now db.tokens })
  unfolding revoke_family
  revoke_family-Holds revoked now db h = Holds-update _ _ db (revoking_only now) h

  pub logout_id-Holds :
      (id now : ℕ) (db : AuthDb)
      → Holds family most db
      → Holds family most (record db { tokens = logout_id id now db.tokens })
  unfolding logout_id
  logout_id-Holds id now db h = Holds-update _ _ db (revoking_only now) h
