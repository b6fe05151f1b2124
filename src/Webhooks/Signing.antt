-- ===== src/Webhooks/Signing.antt =====
-- Signatures of webhook requests (backend/src/modules/webhooks/webhooks.signing.ts). HMAC-SHA256 and
-- the reading of a text by `Number` are arguments. A text is its list of UTF-16 code units.
pub mod Verified
pub mod Bound
use stellar_tipz.Base.{
  ℕ, ◌+◌, ◌-◌, ◌*◌, ◌/◌, ◌%◌, Bool, true, false, not, ◌&&◌, ◌||◌, Option, none, some, List, [], ◌∷◌,
  ◌++◌, ◌==◌, leb, ltb, length, every, drop, take, when_some, if◌then◌else◌,
}
use stellar_tipz.Base.Text.{codes}
use stellar_tipz.Base.Decimal.{print}
use stellar_tipz.Webhooks.{Units}

abbrev pub default_webhook_tolerance_seconds : ℕ
default_webhook_tolerance_seconds = 300

-- The timestamp is the text that the template literal prints.
unfoldable pub signing_input : Units → Units → Units → Units
signing_input timestamp delivery_id payload =
    timestamp ++ (b'.' ∷ (delivery_id ++ (b'.' ∷ payload)))

-- `digest('hex')`
abbrev pub hex_digit : ℕ → ℕ
hex_digit n = if ltb n 10 then 48 + n else 87 + n

unfoldable pub to_hex : List ℕ → Units
to_hex [] = []
to_hex (b ∷ bs) = hex_digit (b / 16) ∷ hex_digit (b % 16) ∷ to_hex bs

-- `[0-9a-f]` with the flag `i`, and the value of such a digit.
abbrev pub is_hex : ℕ → Bool
is_hex c = (leb 48 c && leb c 57) || (leb 97 c && leb c 102) || (leb 65 c && leb c 70)

abbrev pub hex_value : ℕ → ℕ
hex_value c = if leb c 57 then c - 48 else if leb c 70 then c - 55 else c - 87

-- `Buffer.from(text, 'hex')`, which stops at what is no pair of digits.
unfoldable pub from_hex : Units → List ℕ
from_hex [] = []
from_hex (a ∷ []) = []
from_hex (a ∷ b ∷ rest) =
    let more = from_hex rest in
    if is_hex a && is_hex b then (hex_value a * 16 + hex_value b) ∷ more else []

unfoldable pub units_eq : List ℕ → List ℕ → Bool
units_eq [] [] = true
units_eq (a ∷ as_) (b ∷ bs) = (a == b) && units_eq as_ bs
units_eq _ _ = false

abbrev pub signature_prefix : Units
signature_prefix = codes "sha256="

-- `received.startsWith('sha256=') ? received.slice(7) : received`
unfoldable pub normalize_signature : Units → Units
unfolding units_eq
normalize_signature received =
    if units_eq (take 7 received) signature_prefix then drop 7 received else received

unfoldable pub equal_hex : Units → Units → Bool
unfolding from_hex units_eq normalize_signature
equal_hex expected_hex received =
    let normalized = normalize_signature received in
    if every is_hex normalized && (length normalized == 64)
    then units_eq (from_hex expected_hex) (from_hex normalized)
    else false

-- White space of ECMAScript.
abbrev pub is_white : ℕ → Bool
is_white c =
    (leb 9 c && leb c 13)
    || (c == 32)
    || (c == 160)
    || (c == 0xfeff)
    || (c == 0x1680)
    || (leb 0x2000 c && leb c 0x200a)
    || (c == 0x2028)
    || (c == 0x2029)
    || (c == 0x202f)
    || (c == 0x205f)
    || (c == 0x3000)

-- `!deliveryId.trim()`
unfoldable pub is_blank : Units → Bool
is_blank s = every is_white s

pub record TimestampedWebhookVerification : Type 0 where
  pub payload : Units
  pub timestamp : Units
  pub delivery_id : Units
  pub signature : Units
  pub secrets : List Units
  pub now_ms : ℕ
  pub tolerance_seconds : Option ℕ

pub record WebhookSigningHeaders : Type 0 where
  pub timestamp : Units
  pub delivery_id : Units
  pub signature : Units

abbrev pub distance : ℕ → ℕ → ℕ
distance a b = (a - b) + (b - a)

-- `Array.prototype.some`
unfoldable pub any : (Units → Bool) → List Units → Bool
any p [] = false
any p (x ∷ xs) = p x || any p xs

-- A finite number that `Number` has read, as far as the check uses it: what a template literal prints
-- for it, and whether `Math.abs(nowSeconds - timestampSeconds) > tolerance` holds for the current
-- second and the tolerance. It may be a fraction or negative.
pub record FiniteNumber : Type 0 where
  pub printed : Units
  pub is_beyond : ℕ → ℕ → Bool

-- A whole number of seconds.
abbrev pub whole : ℕ → FiniteNumber
whole n = record {
  printed = print n;
  is_beyond = λ now_seconds tolerance. ltb tolerance (distance now_seconds n);
}

module _ (hmac_sha256 : Units → Units → List ℕ) where
  -- The timestamp and the delivery id go into the signature if both are given.
  unfoldable pub sign_webhook_payload : Units → Units → Option (Units × Units) → Units
  unfolding signing_input to_hex
  sign_webhook_payload secret payload none = to_hex (hmac_sha256 secret payload)
  sign_webhook_payload secret payload (some (timestamp, delivery_id)) =
      to_hex (hmac_sha256 secret (signing_input timestamp delivery_id payload))

  unfoldable pub verify_webhook_signature : Units → Units → Units → Bool
  unfolding equal_hex sign_webhook_payload
  verify_webhook_signature secret payload signature =
      equal_hex (sign_webhook_payload secret payload none) signature

  -- `none` of `number_of` is a text that `Number` reads as no finite number.
  unfoldable pub verify_timestamped_webhook_signature :
      (Units → Option FiniteNumber) → TimestampedWebhookVerification → Bool
  unfolding equal_hex sign_webhook_payload is_blank any
  verify_timestamped_webhook_signature number_of v =
      when_some (number_of v.timestamp) false (λ number.
        if number.is_beyond (v.now_ms / 1000)
          (when_some v.tolerance_seconds default_webhook_tolerance_seconds (λ t. t))
        then false
        else if is_blank v.delivery_id
        then false
        else any
            (λ secret.
              equal_hex
                (sign_webhook_payload secret v.payload (some (number.printed, v.delivery_id)))
                v.signature)
            v.secrets)

  unfoldable pub create_webhook_signing_headers : Units → Units → Units → ℕ → WebhookSigningHeaders
  unfolding sign_webhook_payload
  create_webhook_signing_headers secret payload delivery_id timestamp_seconds = record {
    timestamp = print timestamp_seconds;
    delivery_id = delivery_id;
    signature =
        signature_prefix
        ++ sign_webhook_payload secret payload (some (print timestamp_seconds, delivery_id));
  }
