-- ===== src/Webhooks/Signing/Verified.antt =====
-- The signature headers of a delivery and their check by the receiver
-- (backend/src/modules/webhooks/webhooks.signing.ts).
use stellar_tipz.Base.{
  ℕ, ◌*◌, ◌/◌, ◌%◌, ◌<◌, ◌≡◌, ◌≢◌, not, refl, sym, ap, ◌∙◌, inl, inr, Bool, true, false, ◌&&◌,
  Option, some, List, [], ◌∷◌, ◌++◌, ltb, length, every, when_some, arith, All, Bool-cases,
  Option-cases, ==_iff, ◌==◌,
}
use stellar_tipz.Base.Decimal.{print}
use stellar_tipz.Webhooks.{Units}
use stellar_tipz.Webhooks.Delay.Growth.{IsDigest}
use stellar_tipz.Webhooks.Signing.{
  signing_input, hex_digit, to_hex, is_hex, hex_value, from_hex, units_eq, signature_prefix,
  normalize_signature, equal_hex, is_blank, FiniteNumber, whole, TimestampedWebhookVerification,
  WebhookSigningHeaders, default_webhook_tolerance_seconds, distance, any, sign_webhook_payload,
  verify_timestamped_webhook_signature, create_webhook_signing_headers,
}

digit_is_hex : (n : ℕ) → n < 16 → (is_hex (hex_digit n) ≡ true) × (hex_value (hex_digit n) ≡ n)
digit_is_hex n h = ground arith

to_hex_facts :
    (d : List ℕ)
    → All (λ b. b < 256) d
    → (every is_hex (to_hex d) ≡ true)
      × (from_hex (to_hex d) ≡ d)
      × (length (to_hex d) ≡ 2 * length d)
unfolding to_hex from_hex
to_hex_facts [] h = (refl, refl, omega arith)
to_hex_facts (b ∷ bs) (h, hs) =
    let (all, back, size) = to_hex_facts bs hs in
    let (high, high_value) = digit_is_hex (b / 16) (omega arith) in
    let (low, low_value) = digit_is_hex (b % 16) (omega arith) in
    (
      rw (high, low) all,
      rw (high, low, high_value, low_value, back) (ap (λ c. c ∷ bs) (omega arith)),
      omega (arith, size),
    )

apart : false ≢ true
apart e = cc

pub units_eq_refl : (s : List ℕ) → units_eq s s ≡ true
unfolding units_eq
units_eq_refl [] = refl
units_eq_refl (c ∷ cs) = rw ((==_iff c c).1 refl) (units_eq_refl cs)

pub units_eq_sound : (s t : List ℕ) → units_eq s t ≡ true → s ≡ t
unfolding units_eq
units_eq_sound [] [] h = refl
units_eq_sound [] (d ∷ ds) h = absurd (ground arith)
units_eq_sound (c ∷ cs) [] h = absurd (ground arith)
units_eq_sound (c ∷ cs) (d ∷ ds) h = elim (Bool-cases (c == d)) [
  | inl p ↦
      let same : c ≡ d = ground (arith, p) in
      let rest : units_eq cs ds ≡ true = ground (arith, p, h) in
      rw (same, units_eq_sound cs ds rest) refl
  | inr p ↦ absurd (ground (arith, p, h))
]

pub normalize_prefixed : (s : Units) → normalize_signature (signature_prefix ++ s) ≡ s
unfolding normalize_signature units_eq
normalize_prefixed s = refl

pub equal_hex_own :
    (d : List ℕ) → IsDigest d → equal_hex (to_hex d) (signature_prefix ++ to_hex d) ≡ true
unfolding equal_hex
equal_hex_own d h =
    let (all, back, size) = to_hex_facts d h.bytes in
    let long : (length (to_hex d) == 64) ≡ true = (==_iff _ 64).1 (omega (arith, size, h.size)) in
    rw (normalize_prefixed (to_hex d), all, long, back) (units_eq_refl d)

equal_hex_sound :
    (d : List ℕ) (received : Units)
    → IsDigest d
    → equal_hex (to_hex d) received ≡ true
    → from_hex (normalize_signature received) ≡ d
unfolding equal_hex
equal_hex_sound d received h e =
    let (all, back, size) = to_hex_facts d h.bytes in
    let s = normalize_signature received in
    elim (Bool-cases (every is_hex s && (length s == 64))) [
      | inl p ↦
          let equal : units_eq (from_hex (to_hex d)) (from_hex s) ≡ true = sym (rw p refl) ∙ e in
          sym (sym back ∙ units_eq_sound _ _ equal)
      | inr p ↦ absurd (ground (arith, p, e))
    ]

pub any_hit :
    (p : Units → Bool) (before after : List Units) (x : Units)
    → p x ≡ true
    → any p (before ++ (x ∷ after)) ≡ true
unfolding any
any_hit p [] after x h = rw h refl
any_hit p (y ∷ before) after x h = elim (Bool-cases (p y)) [
  | inl q ↦ rw q refl
  | inr q ↦ rw q (any_hit p before after x h)
]

any_found :
    (p : Units → Bool) (xs : List Units)
    → any p xs ≡ true
    → (x : Units) × (before : List Units) × (after : List Units) × (xs ≡ before ++ (x ∷ after))
      × (p x ≡ true)
unfolding any
any_found p [] h = absurd (ground arith)
any_found p (y ∷ ys) h = elim (Bool-cases (p y)) [
  | inl q ↦ (y, [], ys, refl, q)
  | inr q ↦
      let (x, before, after, whole, hit) = any_found p ys (sym (rw q refl) ∙ h) in
      (x, y ∷ before, after, ap (λ zs. y ∷ zs) whole, hit)
]

abbrev pub tolerance : TimestampedWebhookVerification → ℕ
tolerance v = when_some v.tolerance_seconds default_webhook_tolerance_seconds (λ t. t)

-- The headers of a delivery as a receiver checks them, at some time and with some secrets.
abbrev pub received :
    WebhookSigningHeaders → Units → List Units → ℕ → Option ℕ → TimestampedWebhookVerification
received headers payload secrets now_ms tolerance_seconds = record {
  payload = payload;
  timestamp = headers.timestamp;
  delivery_id = headers.delivery_id;
  signature = headers.signature;
  secrets = secrets;
  now_ms = now_ms;
  tolerance_seconds = tolerance_seconds;
}

module _ (hmac_sha256 : Units → Units → List ℕ) (number_of : Units → Option FiniteNumber)
    (digests : (secret s : Units) → IsDigest (hmac_sha256 secret s)) where
  -- The headers that are made with a secret for an id that is not blank are accepted exactly within
  -- the tolerance, by a receiver that has the secret among its own and gets the same payload, where
  -- digests have 32 bytes and the printed timestamp is read back.
  pub headers_verify :
      (secret payload id : Units) (timestamp now_ms : ℕ) (tolerance_seconds : Option ℕ)
      (before after : List Units)
      → number_of (print timestamp) ≡ some (whole timestamp)
      → is_blank id ≡ false
      → let v =
          received
            (create_webhook_signing_headers hmac_sha256 secret payload id timestamp)
            payload
            (before ++ (secret ∷ after))
            now_ms
            tolerance_seconds in
        verify_timestamped_webhook_signature hmac_sha256 number_of v
        ≡ not (ltb (tolerance v) (distance (now_ms / 1000) timestamp))
  unfolding verify_timestamped_webhook_signature create_webhook_signing_headers sign_webhook_payload
  headers_verify secret payload id timestamp now_ms tolerance_seconds before after read blank =
      let limit = when_some tolerance_seconds default_webhook_tolerance_seconds (λ t. t) in
      let input = signing_input (print timestamp) id payload in
      elim (Bool-cases (ltb limit (distance (now_ms / 1000) timestamp))) [
        | inl p ↦ rw (read, p) refl
        | inr p ↦
            rw (read, p, blank)
              (any_hit _ before after secret
                (equal_hex_own (hmac_sha256 secret input) (digests secret input)))
      ]

  -- The digest that a signature header carries.
  pub from_signature :
      (secret payload id : Units) (timestamp : ℕ)
      → from_hex (
          normalize_signature
            ((create_webhook_signing_headers hmac_sha256 secret payload id timestamp).signature))
        ≡ hmac_sha256 secret (signing_input (print timestamp) id payload)
  unfolding create_webhook_signing_headers sign_webhook_payload
  from_signature secret payload id timestamp =
      let d = hmac_sha256 secret (signing_input (print timestamp) id payload) in
      let (all, back, size) = to_hex_facts d ((digests secret _).bytes) in
      ap from_hex (normalize_prefixed (to_hex d)) ∙ back

  -- What an accepted request proves: its timestamp is a number within the tolerance, and its
  -- signature is the digest of that number as it is printed, of its delivery id and payload under one of the secrets.
  pub verified_lem :
      (v : TimestampedWebhookVerification)
      → verify_timestamped_webhook_signature hmac_sha256 number_of v ≡ true
      → (x : FiniteNumber) × (secret : Units) × (before : List Units) × (after : List Units)
        × (number_of v.timestamp ≡ some x)
        × (x.is_beyond (v.now_ms / 1000) (tolerance v) ≡ false)
        × (is_blank v.delivery_id ≡ false)
        × (v.secrets ≡ before ++ (secret ∷ after))
        × (from_hex (normalize_signature v.signature)
            ≡ hmac_sha256 secret (signing_input x.printed v.delivery_id v.payload))
  unfolding verify_timestamped_webhook_signature sign_webhook_payload
  verified_lem v h = elim (Option-cases (number_of v.timestamp)) [
    | inl e ↦ absurd (ground (arith, e, h))
    | inr (x, e) ↦ elim (Bool-cases (x.is_beyond (v.now_ms / 1000) (tolerance v))) [
      | inl p ↦ absurd (apart (sym (rw (e, p) refl) ∙ h))
      | inr p ↦ elim (Bool-cases (is_blank v.delivery_id)) [
        | inl q ↦ absurd (apart (sym (rw (e, p, q) refl) ∙ h))
        | inr q ↦
            let signs : Units → Bool = λ secret.
              equal_hex
                (to_hex (hmac_sha256 secret (signing_input x.printed v.delivery_id v.payload)))
                v.signature in
            let hit_once : any signs v.secrets ≡ true = sym (rw (e, p, q) refl) ∙ h in
            let (secret, before, after, whole, hit) = any_found signs v.secrets hit_once in
            (
              x,
              secret,
              before,
              after,
              e,
              p,
              q,
              whole,
              equal_hex_sound _ v.signature (digests secret _) hit,
            )
      ]
    ]
  ]
