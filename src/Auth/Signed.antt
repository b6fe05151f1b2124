-- ===== src/Auth/Signed.antt =====
-- What stands behind a sign-in (`verifyChallenge` of backend/src/modules/auth/auth.service.ts).
use stellar_tipz.Base.{
  ℕ, ◌+◌, ◌≤◌, ◌≡◌, refl, sym, ap, ◌∙◌, inl, inr, Bool, true, false, not, Option, none, some, List,
  arith, ==_iff, ◌==◌, find_passes, Bool-cases, Option-cases, when_some, if◌then◌else◌,
}
use stellar_tipz.Base.Text.{String, str_eq, eq_refl}
use stellar_tipz.Auth.{
  AuthChallenge, RefreshToken, AuthDb, AuthConfig, LimitScope, verify_addr, verify_ip, AuthResult,
  ok,
}
use stellar_tipz.Auth.Limits.{within_limits, check_and_increment_rate_limit}
use stellar_tipz.Auth.Tokens.{is_some, find_token, start_session, generate_refresh_token}
use stellar_tipz.Auth.Challenges.{
  SignedMessage, resolve_network_passphrase, bound_network, find_challenge, check_challenge,
  mark_used, upsert_user, verify_challenge, sign_in,
}

-- A chain of tests that finds no error has passed each.
guard_passes {ℓ} :
    {A : Type ℓ} (b : Bool) (e : A) (rest : Option A)
    → (if b then some e else rest) ≡ none
    → (b ≡ false) × (rest ≡ none)
guard_passes true e rest h = absurd (ground arith)
guard_passes false e rest h = (refl, h)

required_passes {ℓ κ} :
    {A : Type ℓ} {B : Type κ} (o : Option B) (e : A) (rest : B → Option A)
    → when_some o (some e) rest ≡ none
    → (b : B) × (o ≡ some b) × (rest b ≡ none)
required_passes none e rest h = absurd (ground arith)
required_passes (some b) e rest h = (b, refl, h)

checked_passes {ℓ} :
    {A : Type ℓ} (b : Bool) (e : A)
    → ◌≡◌ {A = Option A} (if b then none else some e) none
    → b ≡ true
checked_passes true e h = refl
checked_passes false e h = absurd (ground arith)

holds_of_not : (b : Bool) → not b ≡ false → b ≡ true
holds_of_not true h = refl
holds_of_not false h = absurd (ground arith)

-- The limits leave the challenges.
pub within_limits-challenges :
    (config : AuthConfig) (first : LimitScope) (address : String) (second : LimitScope)
    (ip : String) (now : ℕ) (db : AuthDb)
    → let db' = (within_limits config first address second ip now db).1 in
      db'.challenges ≡ db.challenges
unfolding within_limits check_and_increment_rate_limit
within_limits-challenges config first address second ip now db =
    elim (Bool-cases (check_and_increment_rate_limit config first address now db).0) [
      | inl p ↦ rw p refl
      | inr p ↦ rw p refl
    ]

-- The row that is found has the nonce.
pub found_named :
    (nonce : ℕ) (c : AuthChallenge) (cs : List AuthChallenge)
    → find_challenge nonce cs ≡ some c
    → c.challenge ≡ nonce
unfolding find_challenge
found_named nonce c cs e =
    (==_iff c.challenge nonce).0 (find_passes (λ x. x.challenge == nonce) cs c e)

-- After the upsert the address has the user that it answers.
upsert_user-users :
    (address : String) (db : AuthDb)
    → let (user, db') = upsert_user address db in
      (db'.users address ≡ some user) × (db'.challenges ≡ db.challenges)
unfolding upsert_user
upsert_user-users address db = elim (Option-cases (db.users address)) [
  | inl e ↦ rw e (rw (eq_refl address) (refl, refl))
  | inr (user, e) ↦ rw e (e, refl)
]

-- The row of a new session.
start_session-row :
    (config : AuthConfig) (user now : ℕ) (db : AuthDb)
    → let (token, db') = start_session config user now db in
      (row : RefreshToken) × (find_token (config.hash_token token) db'.tokens ≡ some row)
      × (row.revoked_at ≡ none)
      × (row.user_id ≡ user)
unfolding start_session generate_refresh_token find_token
start_session-row config user now db =
    let same : (config.hash_token (db.next + 1) == config.hash_token (db.next + 1)) ≡ true =
      ground arith in
    let row : RefreshToken = record {
      id = db.next + 1;
      user_id = user;
      session_id = db.next;
      family_id = db.next;
      hashed_token = config.hash_token (db.next + 1);
      expires_at = now + config.refresh_ttl_ms;
      revoked_at = none;
      last_used_at = now;
    } in
    (row, rw same refl, refl, refl)

ok_inj : (m n : ℕ) → ◌≡◌ {A = AuthResult ℕ} (ok m) (ok n) → m ≡ n
ok_inj m n e = cc

-- What the transaction of a sign-in leaves.
pub record Session (config : AuthConfig) (address : String) (nonce now token : ℕ) (db db' : AuthDb)
    : Type 0 where
  pub row : RefreshToken
  pub stored : find_token (config.hash_token token) db'.tokens ≡ some row
  pub live : row.revoked_at ≡ none
  pub owner : db'.users address ≡ some row.user_id
  pub marks : db'.challenges ≡ mark_used nonce now db.challenges

pub sign_in-Session :
    (config : AuthConfig) (address : String) (nonce now token : ℕ) (db : AuthDb)
    → let (r, db') = sign_in config address nonce now db in
      r ≡ ok token → Session config address nonce now token db db'
unfolding sign_in start_session generate_refresh_token find_token find_challenge
sign_in-Session config address nonce now token db =
    elim (Option-cases (find_challenge nonce db.challenges)) [
      | inl e ↦ rw e (λ h. absurd (ground (arith, h)))
      | inr (c, e) ↦ rw e (elim (Bool-cases (is_some c.used_at)) [
        | inl p ↦ rw p (λ h. absurd (ground (arith, h)))
        | inr p ↦ rw p (λ h.
            let named : c.challenge ≡ nonce = found_named nonce c db.challenges e in
            let (owner, kept) =
              upsert_user-users address
                (record db { challenges = mark_used c.challenge now db.challenges }) in
            let (user, db') =
              upsert_user address
                (record db { challenges = mark_used c.challenge now db.challenges }) in
            let (row, stored, live, of_user) = start_session-row config user now db' in
            let same = ok_inj (start_session config user now db').0 token h in
            record {
              row = row;
              stored =
                  ap
                    (λ k.
                      find_token (config.hash_token k) (start_session config user now db').1.tokens)
                    (sym same)
                  ∙ stored;
              live = live;
              owner = owner ∙ ap some (sym of_user);
              marks = kept ∙ ap (λ n. mark_used n now db.challenges) named;
            })
      ])
    ]

module _ (verify_signature : String → SignedMessage → ℕ → Bool) (config : AuthConfig)
    (address : String) (signature : ℕ) where
  -- The tests that a challenge has passed.
  pub record Passed (network : String) (now : ℕ) (c : AuthChallenge) : Type 0 where
    pub same_address : str_eq c.stellar_address address ≡ true
    pub same_network : str_eq c.network network ≡ true
    pub unused : is_some c.used_at ≡ false
    pub in_time : now ≤ c.expires_at
    pub passphrase : String
    pub supported : resolve_network_passphrase config c.network ≡ some passphrase
    pub signed :
        verify_signature address
          (record {
            wallet = address;
            network = passphrase;
            nonce = c.challenge;
            expires = c.expires_at;
          })
          signature
        ≡ true

  pub check_challenge-Passed :
      (network : String) (now : ℕ) (c : AuthChallenge)
      → check_challenge verify_signature config address signature network now c ≡ none
      → Passed network now c
  unfolding check_challenge
  check_challenge-Passed network now c e =
      let (a, e1) = guard_passes _ _ _ e in
      let (n, e2) = guard_passes _ _ _ e1 in
      let (u, e3) = guard_passes _ _ _ e2 in
      let (t, e4) = guard_passes _ _ _ e3 in
      let (passphrase, s, e5) = required_passes _ _ _ e4 in
      record {
        same_address = holds_of_not _ a;
        same_network = holds_of_not _ n;
        unused = u;
        in_time = ground arith;
        passphrase = passphrase;
        supported = s;
        signed = checked_passes _ _ e5;
      }

  -- The row of the nonce and the session of a verification that answers with a token.
  pub record SignedIn (nonce : ℕ) (network : Option String) (now token : ℕ) (db db' : AuthDb)
      : Type 0 where
    pub row : AuthChallenge
    pub stored : find_challenge nonce db.challenges ≡ some row
    pub passed : Passed (bound_network config network) now row
    pub session : Session config address nonce now token db db'

  sign_in-SignedIn :
      (nonce : ℕ) (network : Option String) (now token : ℕ) (c : AuthChallenge)
      (db limited : AuthDb)
      → limited.challenges ≡ db.challenges
      → find_challenge nonce limited.challenges ≡ some c
      → Passed (bound_network config network) now c
      → let (r, db') = sign_in config address c.challenge now limited in
        r ≡ ok token → SignedIn nonce network now token db db'
  unfolding find_challenge
  sign_in-SignedIn nonce network now token c db limited same found passed h =
      let named : c.challenge ≡ nonce = found_named nonce c limited.challenges found in
      let s = sign_in-Session config address c.challenge now token limited h in
      record {
        row = c;
        stored = ap (find_challenge nonce) (sym same) ∙ found;
        passed = passed;
        session = record {
          row = s.row;
          stored = s.stored;
          live = s.live;
          owner = s.owner;
          marks =
              s.marks
              ∙ ap (λ n. mark_used n now limited.challenges) named
              ∙ ap (mark_used nonce now) same;
        };
      }

  -- When a verification answers with a token: the nonce has a row, for this address and this network,
  -- that was unused and had not expired; the network is one of the three, and the signature is the
  -- address's on the text with that network's passphrase, the nonce and the expiry. Afterwards the
  -- token's row is stored, is not revoked and belongs to the user of the address, and the challenge is
  -- marked as used.
  pub verified_session :
      (nonce : ℕ) (network : Option String) (ip : String) (now token : ℕ) (db : AuthDb)
      → let (r, db') =
          verify_challenge verify_signature config address signature nonce network ip now db in
        r ≡ ok token → SignedIn nonce network now token db db'
  unfolding verify_challenge
  verified_session nonce network ip now token db =
      let expected = bound_network config network in
      let (fine, db') = within_limits config verify_addr address verify_ip ip now db in
      let same = within_limits-challenges config verify_addr address verify_ip ip now db in
      elim (Option-cases (resolve_network_passphrase config expected)) [
        | inl e ↦ rw e (λ h. absurd (ground (arith, h)))
        | inr (passphrase, e) ↦ rw e (elim (Bool-cases fine) [
          | inr p ↦ rw p (λ h. absurd (ground (arith, h)))
          | inl p ↦ rw p (elim (Option-cases (find_challenge nonce db'.challenges)) [
            | inl f ↦ rw f (λ h. absurd (ground (arith, h)))
            | inr (c, f) ↦
                rw f
                  (elim (Option-cases
                    (check_challenge verify_signature config address signature expected now c)) [
                      | inr (g, g') ↦ rw g' (λ h. absurd (ground (arith, h)))
                      | inl g ↦ rw g (
                          sign_in-SignedIn nonce network now token c db db' same f
                            (check_challenge-Passed expected now c g))
                    ])
          ])
        ])
      ]
