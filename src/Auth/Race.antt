-- ===== src/Auth/Race.antt =====
-- Two refreshes of one token whose transactions overlap (`refreshToken` of
-- backend/src/modules/auth/auth.service.ts, under read committed).
use stellar_tipz.Base.{
  ℕ, ◌≤◌, ◌≡◌, refl, sym, ◌∙◌, inl, inr, Bool, true, false, Option, none, some, List, [], ◌∷◌,
  arith, ◌==◌, ltb, Bool-cases, if◌then◌else◌,
}
use stellar_tipz.Base.Text.{String}
use stellar_tipz.Auth.{RefreshToken, AuthDb, AuthConfig}
use stellar_tipz.Auth.Tokens.{
  is_some, find_token, revoke_id, generate_refresh_token, usable, present_token, reread_token,
  write_rotation,
}
use stellar_tipz.Auth.Challenges.{SignedMessage}
use stellar_tipz.Auth.Requests.{Request, empty_db, serve_all}
use stellar_tipz.Auth.Families.{count_live, found_by_id, count-revoke_id}
use stellar_tipz.Auth.Families.Rotation.{reread_found, unrevoked}
use stellar_tipz.Auth.Families.Served.{looked_at, serve_all-Holds, empty-Holds}

looked_live :
    (now : ℕ) (u : RefreshToken)
    → ltb u.expires_at now ≡ false
    → is_some u.revoked_at ≡ false
    → looked_at now (some u) ≡ usable u
unfolding looked_at
looked_live now u p q = rw (p, q) refl

-- A row that is found usable is in the table, live and not expired.
looked_usable :
    (now : ℕ) (t : RefreshToken) (o : Option RefreshToken)
    → looked_at now o ≡ usable t
    → (o ≡ some t) × (is_some t.revoked_at ≡ false) × (ltb t.expires_at now ≡ false)
unfolding looked_at
looked_usable now t none e = absurd (ground arith)
looked_usable now t (some u) e = elim (Bool-cases (ltb u.expires_at now)) [
  | inl p ↦ absurd (ground (arith, e, p))
  | inr p ↦ elim (Bool-cases (is_some u.revoked_at)) [
    | inl q ↦ absurd (ground (arith, e, p, q))
    | inr q ↦
        let e' : usable u ≡ usable t = sym (looked_live now u p q) ∙ e in
        let same : u ≡ t = cc in rw (sym same) (refl, q, p)
  ]
]

present_usable :
    (config : AuthConfig) (token now : ℕ) (t : RefreshToken) (db : AuthDb)
    → present_token config token now db ≡ usable t
    → (find_token (config.hash_token token) db.tokens ≡ some t)
      × (is_some t.revoked_at ≡ false)
      × (ltb t.expires_at now ≡ false)
unfolding present_token looked_at
present_usable config token now t db e =
    looked_usable now t (find_token (config.hash_token token) db.tokens) e

-- A row that is revoked again counts no less.
count-revoke_twice :
    (family i now later : ℕ) (ts : List RefreshToken)
    → count_live family (revoke_id i later (revoke_id i now ts))
      ≡ count_live family (revoke_id i now ts)
unfolding count_live revoke_id
count-revoke_twice family i now later [] = refl
count-revoke_twice family i now later (t ∷ ts) = elim (Bool-cases (t.id == i)) [
  | inl p ↦ rw p (rw p (ground (arith, count-revoke_twice family i now later ts)))
  | inr p ↦ rw p (rw p (ground (arith, count-revoke_twice family i now later ts)))
]

own_family : (family : ℕ) → ◌≡◌ {A = ℕ} (if family == family then 1 else 0) 1
own_family family = ground arith

module _ (verify_signature : String → SignedMessage → ℕ → Bool) (config : AuthConfig) where
  -- After any requests, when two refreshes present the same live token and each reads its row before
  -- the other writes, both may rotate it, and their writes, one after the other, leave two live tokens
  -- in its family.
  pub rotations_race :
      (before : List (Request × ℕ)) (token now later : ℕ) (t : RefreshToken)
      → let db = serve_all verify_signature config before empty_db in
        let (first, db') = write_rotation config now t t db in
        let (second, db'') = write_rotation config later t t db' in
        present_token config token now db ≡ usable t
        → later ≤ t.expires_at
        → (reread_token now t db ≡ some t)
          × (reread_token later t db ≡ some t)
          × (count_live t.family_id db''.tokens ≡ 2)
  unfolding write_rotation generate_refresh_token count_live
  rotations_race before token now later t e le =
      let db = serve_all verify_signature config before empty_db in
      let h =
        serve_all-Holds verify_signature config t.family_id 1 before empty_db
          (empty-Holds t.family_id) in
      let (found, live, fresh) = present_usable config token now t db e in
      let (again, lt, older) =
        found_by_id db.next (config.hash_token token) t db.tokens h.below found in
      let counted =
        count-revoke_id db.next t.family_id now t db.tokens h.below again
          (unrevoked t.revoked_at live) in
      let twice = count-revoke_twice t.family_id t.id now later db.tokens in
      let most = h.count in
      let apart : (db.next == t.id) ≡ false = ground arith in
      let mine : (t.family_id == t.family_id) ≡ true = ground arith in
      let gone : count_live t.family_id (revoke_id t.id now db.tokens) ≡ 0 =
        omega (arith, own_family t.family_id) in
      (
        reread_found now t db again ∙ rw (live, fresh) refl,
        reread_found later t db again ∙ ground arith,
        rw (apart, mine, twice, gone) refl,
      )
