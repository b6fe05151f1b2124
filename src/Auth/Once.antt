-- ===== src/Auth/Once.antt =====
-- The use of a challenge over any requests (backend/src/modules/auth/auth.service.ts).
use stellar_tipz.Base.{
  ℕ, ◌+◌, ◌≤◌, ◌<◌, ◌≡◌, ◌≢◌, refl, inl, inr, Bool, true, Option, List, [], ◌∷◌, arith, All,
  All_map, All-filter, All-update_where, All-find, ◌==◌, filter, Bool-cases, Option-cases,
}
use stellar_tipz.Base.Text.{String}
use stellar_tipz.Auth.{AuthChallenge, RefreshToken, AuthDb, AuthConfig, ok}
use stellar_tipz.Auth.Tokens.{
  is_some, start_session, generate_refresh_token, rotate_token, reread_token, write_rotation,
}
use stellar_tipz.Auth.Challenges.{SignedMessage, find_challenge, mark_used, verify_challenge}
use stellar_tipz.Auth.Requests.{Request, empty_db, serve_all}
use stellar_tipz.Auth.Invariants.{Keeps, verify_challenge-Keeps, serve_all-Keeps}
use stellar_tipz.Auth.Signed.{verified_session, found_named}

-- All nonces were given out; from `stage` 1 on the nonce is one of them, and from 2 on its rows are used.
record Recorded (nonce stage : ℕ) (db : AuthDb) : Type 0 where
  known : All (λ c. c.challenge < db.next) db.challenges
  given : 1 ≤ stage → nonce < db.next
  spent : 2 ≤ stage → All (λ c. c.challenge ≡ nonce → is_some c.used_at ≡ true) db.challenges

module _ (config : AuthConfig) (nonce stage : ℕ) where
  Recorded-same :
      (db db' : AuthDb)
      → db'.next ≡ db.next
      → db'.challenges ≡ db.challenges
      → Recorded nonce stage db
      → Recorded nonce stage db'
  Recorded-same db db' n e r = record {
    known = rw (n, e) r.known;
    given = λ d. rw n (r.given d);
    spent = λ d. rw e (r.spent d);
  }

  Recorded-next :
      (db db' : AuthDb)
      → db'.next ≡ db.next + 1
      → db'.challenges ≡ db.challenges
      → Recorded nonce stage db
      → Recorded nonce stage db'
  Recorded-next db db' n e r = record {
    known = rw (n, e) (All_map (λ c lt. omega arith) db.challenges r.known);
    given = λ d. let lt = r.given d in omega arith;
    spent = λ d. rw e (r.spent d);
  }

  filter-Recorded :
      (test : AuthChallenge → Bool) (db : AuthDb)
      → Recorded nonce stage db
      → Recorded nonce stage (record db { challenges = filter test db.challenges })
  filter-Recorded test db r = record {
    known = All-filter _ test db.challenges r.known;
    given = r.given;
    spent = λ d. All-filter _ test db.challenges (r.spent d);
  }

  create-Recorded :
      (c : AuthChallenge) (db : AuthDb)
      → c.challenge ≡ db.next
      → Recorded nonce stage db
      → Recorded nonce stage (record db { next = db.next + 1; challenges = c ∷ db.challenges })
  create-Recorded c db e r = record {
    known = (omega arith, All_map (λ x lt. omega arith) db.challenges r.known);
    given = λ d. let lt = r.given d in omega arith;
    spent = λ d. (λ same. let lt = r.given (omega arith) in absurd (omega arith), r.spent d);
  }

  mark_used-Recorded :
      (other now : ℕ) (db : AuthDb)
      → Recorded nonce stage db
      → Recorded nonce stage (record db { challenges = mark_used other now db.challenges })
  unfolding mark_used
  mark_used-Recorded other now db r = record {
    known = All-update_where _ _ _ db.challenges (λ c lt. lt) r.known;
    given = r.given;
    spent = λ d. All-update_where _ _ _ db.challenges (λ c used same. refl) (r.spent d);
  }

  start_session-Recorded :
      (user now : ℕ) (db : AuthDb)
      → Recorded nonce stage db
      → Recorded nonce stage (start_session config user now db).1
  unfolding start_session generate_refresh_token
  start_session-Recorded user now db r =
      Recorded-next _ _ refl refl (Recorded-next db (record db { next = db.next + 1 }) refl refl r)

  rotate_token-Recorded :
      (now : ℕ) (t : RefreshToken) (db : AuthDb)
      → Recorded nonce stage db
      → Recorded nonce stage (rotate_token config now t db).1
  unfolding rotate_token write_rotation generate_refresh_token
  rotate_token-Recorded now t db r = elim (Option-cases (reread_token now t db)) [
    | inl e ↦ rw e r
    | inr (fresh, e) ↦ rw e (Recorded-next db _ refl refl r)
  ]

  Recorded-Keeps : Keeps config (Recorded nonce stage)
  Recorded-Keeps = record {
    counted = λ db cs. Recorded-same db _ refl refl;
    user_added = λ db us. Recorded-next db _ refl refl;
    filtered = filter-Recorded;
    created = create-Recorded;
    marked = mark_used-Recorded;
    session = start_session-Recorded;
    rotated = λ now hashed t db found. rotate_token-Recorded now t db;
    family_revoked = λ family now db. Recorded-same db _ refl refl;
    logged_out = λ id now db. Recorded-same db _ refl refl;
  }

empty-Recorded : (nonce : ℕ) → Recorded nonce 0 empty_db
empty-Recorded nonce = record { known = tt; given = λ d. absurd (omega arith); spent = λ d. tt }

-- All rows of a nonce that is marked are used.
mark_used-All :
    (nonce now : ℕ) (cs : List AuthChallenge)
    → All (λ c. c.challenge ≡ nonce → is_some c.used_at ≡ true) (mark_used nonce now cs)
unfolding mark_used
mark_used-All nonce now [] = tt
mark_used-All nonce now (c ∷ cs) = elim (Bool-cases (c.challenge == nonce)) [
  | inl p ↦ rw p (λ _. refl, mark_used-All nonce now cs)
  | inr p ↦ rw p (λ same. absurd (ground arith), mark_used-All nonce now cs)
]

module _ (verify_signature : String → SignedMessage → ℕ → Bool) (config : AuthConfig) where
  served :
      (nonce stage : ℕ) (rs : List (Request × ℕ)) (db : AuthDb)
      → Recorded nonce stage db
      → Recorded nonce stage (serve_all verify_signature config rs db)
  served nonce stage =
      serve_all-Keeps verify_signature config (Recorded nonce stage)
        (Recorded-Keeps config nonce stage)

  -- A verification that answers with a token spends the nonce.
  verified-Recorded :
      (address : String) (signature nonce : ℕ) (network : Option String) (ip : String)
      (now token : ℕ) (db : AuthDb)
      → let (r, db') =
          verify_challenge verify_signature config address signature nonce network ip now db in
        r ≡ ok token → Recorded nonce 0 db → Recorded nonce 2 db'
  unfolding find_challenge
  verified-Recorded address signature nonce network ip now token db h r =
      let s =
        verified_session verify_signature config address signature nonce network ip now token db
          h in
      let lt = All-find _ _ db.challenges s.row r.known s.stored in
      let same : s.row.challenge ≡ nonce = found_named nonce s.row db.challenges s.stored in
      let given : Recorded nonce 1 db = record {
        known = r.known;
        given = λ _. omega arith;
        spent = λ d. absurd (omega arith);
      } in
      let kept =
        verify_challenge-Keeps verify_signature config (Recorded nonce 1)
          (Recorded-Keeps config nonce 1) address signature nonce network ip now db given in
      record {
        known = kept.known;
        given = λ _. kept.given (omega arith);
        spent = λ _. rw s.session.marks (mark_used-All nonce now db.challenges);
      }

  -- After any requests, once a verification of a challenge has answered with a token, and whatever is
  -- served since, no verification of that challenge, by any address and signature, answers with a token.
  pub signs_in_once :
      (before after : List (Request × ℕ)) (address address' : String)
      (signature signature' nonce : ℕ) (network network' : Option String) (ip ip' : String)
      (now later token token' : ℕ)
      → let db = serve_all verify_signature config before empty_db in
        let (r, db') =
          verify_challenge verify_signature config address signature nonce network ip now db in
        let db'' = serve_all verify_signature config after db' in
        r ≡ ok token
        → (verify_challenge verify_signature config address' signature' nonce network' ip' later
            db'').0
          ≢ ok token'
  unfolding find_challenge
  signs_in_once before after address address' signature signature' nonce network network' ip ip' now
        later token token' h h' =
      let db = serve_all verify_signature config before empty_db in
      let (r, db') =
        verify_challenge verify_signature config address signature nonce network ip now db in
      let db'' = serve_all verify_signature config after db' in
      let known = served nonce 0 before empty_db (empty-Recorded nonce) in
      let kept =
        served nonce 2 after db'
          (verified-Recorded address signature nonce network ip now token db h known) in
      let s =
        verified_session verify_signature config address' signature' nonce network' ip' later token'
          db'' h' in
      let same = found_named nonce s.row db''.challenges s.stored in
      let used =
        All-find (λ c. c.challenge ≡ nonce → is_some c.used_at ≡ true) (λ c. c.challenge == nonce)
          db''.challenges s.row (kept.spent (omega arith)) s.stored same in
      let unused = s.passed.unused in absurd (ground (arith, used, unused))
