-- ===== src/Webhooks/Signing/Bound.antt =====
-- What a webhook signature is bound to: `signingInput` of
-- backend/src/modules/webhooks/webhooks.signing.ts read back.
use stellar_tipz.Base.{
  ℕ, ◌/◌, ◌≤◌, ◌≡◌, ◌≢◌, refl, sym, ap, ◌∙◌, true, false, Option, some, List, [], ◌∷◌, ◌++◌, arith,
  All, All_map, when_some,
}
use stellar_tipz.Base.Decimal.{print, print-All}
use stellar_tipz.Webhooks.{Units}
use stellar_tipz.Webhooks.Delay.Growth.{IsDigest}
use stellar_tipz.Webhooks.Signing.{
  signing_input, is_blank, to_hex, equal_hex, signature_prefix, FiniteNumber, whole,
  sign_webhook_payload, TimestampedWebhookVerification, from_hex, normalize_signature, distance,
  verify_timestamped_webhook_signature, create_webhook_signing_headers,
}
use stellar_tipz.Webhooks.Signing.Verified.{
  tolerance, verified_lem, from_signature, any_hit, equal_hex_own,
}

-- No full stop in the text, as in the ids that the service makes.
abbrev pub NoDot : Units → Type 0
NoDot s = All (λ c. c ≢ b'.') s

head_of : {x y : ℕ} {xs ys : Units} → x ∷ xs ≡ y ∷ ys → x ≡ y
head_of e = cc

tail_of : {x y : ℕ} {xs ys : Units} → x ∷ xs ≡ y ∷ ys → xs ≡ ys
tail_of e = cc

split_dot :
    (xs ys r s : Units)
    → NoDot xs
    → NoDot ys
    → xs ++ (b'.' ∷ r) ≡ ys ++ (b'.' ∷ s)
    → (xs ≡ ys) × (r ≡ s)
split_dot [] [] r s h k e = (refl, tail_of e)
split_dot [] (y ∷ ys) r s h (k, ks) e = absurd (k (sym (head_of e)))
split_dot (x ∷ xs) [] r s (h, hs) k e = absurd (h (head_of e))
split_dot (x ∷ xs) (y ∷ ys) r s (h, hs) (k, ks) e =
    let (front, rest) = split_dot xs ys r s hs ks (tail_of e) in (rw (head_of e, front) refl, rest)

print-NoDot : (n : ℕ) → NoDot (print n)
print-NoDot n = All_map (λ c d e. absurd (omega arith)) (print n) (print-All n)

-- The signed text determines its three parts.
pub signing_input_injective :
    (t t' id id' payload payload' : Units)
    → NoDot t
    → NoDot t'
    → NoDot id
    → NoDot id'
    → signing_input t id payload ≡ signing_input t' id' payload'
    → (t ≡ t') × (id ≡ id') × (payload ≡ payload')
unfolding signing_input
signing_input_injective t t' id id' payload payload' d d' h k e =
    let (front, rest) = split_dot t t' _ _ d d' e in
    let (ids, payloads) = split_dot id id' payload payload' h k rest in (front, ids, payloads)

within : (now limit n : ℕ) → (whole n).is_beyond now limit ≡ false → distance now n ≤ limit
within now limit n h = ground arith

-- A signature that was made for a delivery at a whole second is accepted for no other timestamp,
-- delivery id or payload, nor after its time, as far as the accepted request's timestamp reads as
-- a number that prints without a full stop: the request then has what was signed and its timestamp
-- is within the tolerance. Digests have 32 bytes, the ids have no full stop, no other text has the
-- digest that was sent, under any key, and a number that prints as the signed one is that one.
pub signature_is_bound :
    (hmac_sha256 : Units → Units → List ℕ) (number_of : Units → Option FiniteNumber)
    (secret payload id : Units) (timestamp : ℕ) (v : TimestampedWebhookVerification)
    → ((key s : Units) → IsDigest (hmac_sha256 key s))
    → ((key s : Units)
        → hmac_sha256 key s ≡ hmac_sha256 secret (signing_input (print timestamp) id payload)
        → s ≡ signing_input (print timestamp) id payload)
    → ((x : FiniteNumber)
        → number_of v.timestamp ≡ some x
        → x.printed ≡ print timestamp
        → x ≡ whole timestamp)
    → ((x : FiniteNumber) → number_of v.timestamp ≡ some x → NoDot x.printed)
    → NoDot id
    → NoDot v.delivery_id
    → v.signature
      ≡ (create_webhook_signing_headers hmac_sha256 secret payload id timestamp).signature
    → verify_timestamped_webhook_signature hmac_sha256 number_of v ≡ true
    → (number_of v.timestamp ≡ some (whole timestamp))
      × (v.delivery_id ≡ id)
      × (v.payload ≡ payload)
      × (distance (v.now_ms / 1000) timestamp ≤ tolerance v)
signature_is_bound hmac_sha256 number_of secret payload id timestamp v digests alone one_print plain
      h k same e =
    let (x, key, before, after, read, fresh, blank, all, signed) =
      verified_lem hmac_sha256 number_of digests v e in
    let sent =
      ap (λ s. from_hex (normalize_signature s)) same
      ∙ from_signature hmac_sha256 number_of digests secret payload id timestamp in
    let (times, ids, payloads) =
      signing_input_injective x.printed (print timestamp) v.delivery_id id v.payload payload
        (plain x read) (print-NoDot timestamp) k h (alone key _ (sym signed ∙ sent)) in
    let number : x ≡ whole timestamp = one_print x read times in
    (
      read ∙ ap (λ n. some n) number,
      ids,
      payloads,
      within _ _ timestamp (
          ap (λ (n : FiniteNumber). n.is_beyond (v.now_ms / 1000) (tolerance v)) (sym number)
          ∙ fresh),
    )

++_dots :
    (t a b c : Units)
    → (t ++ (b'.' ∷ a)) ++ (b'.' ∷ (b ++ (b'.' ∷ c)))
      ≡ t ++ (b'.' ∷ (a ++ (b'.' ∷ (b ++ (b'.' ∷ c)))))
++_dots [] a b c = refl
++_dots (x ∷ t) a b c = ap (λ s. x ∷ s) (++_dots t a b c)

-- The full stop of a fraction shifts the parts: a signature that was made at the second t for the
-- delivery id a and the payload "b.c" is accepted for the timestamp "t.a", the delivery id b and the
-- payload c, by a receiver that has the one secret it was made with, if "t.a" reads as a number that
-- prints so and is within the tolerance and b is not blank. Digests have 32 bytes.
pub fraction_confuses :
    (hmac_sha256 : Units → Units → List ℕ) (number_of : Units → Option FiniteNumber)
    (secret a b c : Units) (t now_ms : ℕ) (tolerance_seconds : Option ℕ) (x : FiniteNumber)
    → ((key s : Units) → IsDigest (hmac_sha256 key s))
    → number_of (print t ++ (b'.' ∷ a)) ≡ some x
    → x.printed ≡ print t ++ (b'.' ∷ a)
    → x.is_beyond (now_ms / 1000) (when_some tolerance_seconds 300 (λ n. n)) ≡ false
    → is_blank b ≡ false
    → let headers = create_webhook_signing_headers hmac_sha256 secret (b ++ (b'.' ∷ c)) a t in
      verify_timestamped_webhook_signature hmac_sha256 number_of (record {
        payload = c;
        timestamp = headers.timestamp ++ (b'.' ∷ headers.delivery_id);
        delivery_id = b;
        signature = headers.signature;
        secrets = secret ∷ [];
        now_ms = now_ms;
        tolerance_seconds = tolerance_seconds;
      })
      ≡ true
unfolding verify_timestamped_webhook_signature create_webhook_signing_headers sign_webhook_payload
    signing_input
fraction_confuses hmac_sha256 number_of secret a b c t now_ms tolerance_seconds x digests read
      prints fresh blank =
    let input = signing_input (print t) a (b ++ (b'.' ∷ c)) in
    let signed = to_hex (hmac_sha256 secret input) in
    rw (read, fresh, blank, prints, ++_dots (print t) a b c)
      (any_hit (λ key. equal_hex (to_hex (hmac_sha256 key input)) (signature_prefix ++ signed)) []
        [] secret (equal_hex_own (hmac_sha256 secret input) (digests secret input)))
