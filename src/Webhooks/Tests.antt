-- ===== src/Webhooks/Tests.antt =====
-- Tests of the webhook deliveries, and their theorems at concrete inputs.
use stellar_tipz.Base.{
  ℕ, zero, suc, ◌+◌, ◌*◌, ◌++◌, ◌≤◌, ◌≡◌, ◌≢◌, refl, sym, ◌∙◌, inl, inr, true, false, Option, none,
  some, List, [], ◌∷◌, ltb, arith, Bool-cases, take, if◌then◌else◌,
}
use stellar_tipz.Base.Text.{codes}
use stellar_tipz.Base.Decimal.{print, value_from}
use stellar_tipz.Webhooks.{
  Units, pending, WebhookDb, WebhookDelivery, WebhookDeliveryPayload, active, find_delivery,
}
use stellar_tipz.Webhooks.Effects.{numbers_of}
use stellar_tipz.Webhooks.Delay.{
  Classification, classify_webhook_response, calculate_webhook_retry_delay,
}
use stellar_tipz.Webhooks.Delay.Growth.{IsDigest}
use stellar_tipz.Webhooks.Excerpt.{
  Codec, Response, bytes, broken, excerpt, read_response_body_excerpt,
}
use stellar_tipz.Webhooks.Excerpt.Bounds.{LongestWithin, body_stream, excerpt_longest}
use stellar_tipz.Webhooks.Signing.{
  units_eq, signing_input, FiniteNumber, whole, is_blank, distance,
  verify_timestamped_webhook_signature, create_webhook_signing_headers,
  TimestampedWebhookVerification,
}
use stellar_tipz.Webhooks.Signing.Verified.{received, headers_verify, units_eq_sound, units_eq_refl}
use stellar_tipz.Webhooks.Signing.Bound.{NoDot, signature_is_bound, fraction_confuses}
use stellar_tipz.Webhooks.Attempt.{Outside, World, answered, schedule_webhook_delivery}
use stellar_tipz.Webhooks.Queue.{RetryPolicy, run_job}
use stellar_tipz.Webhooks.Queue.Ends.{Settled, delivery_ends}

-- Every code unit is one byte.
abbrev ascii : Codec
ascii = record { decode = λ b. b; encode = λ s. s; encode_empty = refl }

abbrev repeated : ℕ → ℕ → List ℕ
repeated zero b = []
repeated (suc n) b = b ∷ repeated n b

zeros_IsDigest : IsDigest (repeated 32 0)
zeros_IsDigest = record { size = refl; bytes = omega arith }

ones_IsDigest : IsDigest (repeated 32 1)
ones_IsDigest = record { size = refl; bytes = omega arith }

rate_limited : classify_webhook_response 429 ≡ Classification.retryable
unfolding classify_webhook_response
rate_limited = refl

gone : classify_webhook_response 410 ≡ Classification.permanent
unfolding classify_webhook_response
gone = refl

delay_3 : calculate_webhook_retry_delay 3 0 ≡ 4000
unfolding calculate_webhook_retry_delay
delay_3 = refl

delay_1 : calculate_webhook_retry_delay 1 4294967295 ≡ 1999
unfolding calculate_webhook_retry_delay
delay_1 = refl

abbrev constant_digest : Units → List ℕ
constant_digest s = repeated 32 1

abbrev page : Response
page = record {
  status = 500;
  status_text = codes "Oops";
  body = some (bytes (codes "ab") ∷ bytes (codes "cde") ∷ broken none ∷ []);
}

read_page : read_response_body_excerpt ascii page 4 ≡ excerpt (some (codes "abcd"))
unfolding read_response_body_excerpt
read_page = refl

excerpt_longest_example : LongestWithin ascii 4 (take 4 (body_stream page.body)) (codes "abcd")
excerpt_longest_example = excerpt_longest ascii page 4 (codes "abcd") read_page

-- A reader of whole numbers, and of one fraction: 1000.5 is further from a second than a tolerance if
-- the tenths are.
abbrev half : FiniteNumber
half = record {
  printed = codes "1000.5";
  is_beyond = λ now limit. ltb (limit * 10) (distance (now * 10) 10005);
}

abbrev number_of : Units → Option FiniteNumber
number_of s = if units_eq s (codes "1000.5") then some half else some (whole (value_from 0 s))

read_1000 : number_of (print 1000) ≡ some (whole 1000)
unfolding units_eq value_from print
read_1000 = refl

d1_not_blank : is_blank (codes "d1") ≡ false
unfolding is_blank
d1_not_blank = refl

headers_verify_example :
    verify_timestamped_webhook_signature
      (λ key. constant_digest)
      number_of
      (received
        (create_webhook_signing_headers
          (λ key. constant_digest)
          (codes "old")
          (codes "{}")
          (codes "d1")
          1000)
        (codes "{}")
        (codes "new" ∷ codes "old" ∷ [])
        1200000
        none)
    ≡ true
headers_verify_example =
    headers_verify (λ key. constant_digest) number_of (λ key s. ones_IsDigest) (codes "old")
      (codes "{}") (codes "d1") 1000 1200000 none (codes "new" ∷ []) [] read_1000 d1_not_blank

abbrev signed : Units
signed = signing_input (print 1000) (codes "d1") (codes "{}")

-- A digest that no other text has.
unfoldable keyed : Units → Units → List ℕ
keyed key s = if units_eq s signed then repeated 32 0 else repeated 32 1

keyed-IsDigest : (key s : Units) → IsDigest (keyed key s)
unfolding keyed
keyed-IsDigest key s = elim (Bool-cases (units_eq s signed)) [
  | inl p ↦ rw p zeros_IsDigest
  | inr p ↦ rw p ones_IsDigest
]

differ : repeated 32 1 ≢ repeated 32 0
differ e = cc

keyed_alone : (key s : Units) → keyed key s ≡ keyed (codes "k") signed → s ≡ signed
unfolding keyed
keyed_alone key s e = elim (Bool-cases (units_eq s signed)) [
  | inl p ↦ units_eq_sound s signed p
  | inr p ↦
      let own : keyed (codes "k") signed ≡ repeated 32 0 = rw (units_eq_refl signed) refl in
      let other : keyed key s ≡ repeated 32 1 = rw p refl in absurd (differ (sym other ∙ e ∙ own))
]

number_in : {x y : FiniteNumber} → some x ≡ some y → x ≡ y
number_in e = cc

abbrev request : TimestampedWebhookVerification
request =
    received (create_webhook_signing_headers keyed (codes "k") (codes "{}") (codes "d1") 1000)
      (codes "{}") (codes "k" ∷ []) 1200000 none

request_verified : verify_timestamped_webhook_signature keyed number_of request ≡ true
request_verified =
    headers_verify keyed number_of keyed-IsDigest (codes "k") (codes "{}") (codes "d1") 1000 1200000
      none [] [] read_1000 d1_not_blank

number_1000 : (x : FiniteNumber) → number_of request.timestamp ≡ some x → x ≡ whole 1000
unfolding create_webhook_signing_headers
number_1000 x e = number_in (sym e ∙ read_1000)

digits_1000 : NoDot (print 1000)
unfolding print
digits_1000 = omega arith

number_plain : (x : FiniteNumber) → number_of request.timestamp ≡ some x → NoDot x.printed
number_plain x e = rw (number_1000 x e) digits_1000

signature_is_bound_example :
    (number_of request.timestamp ≡ some (whole 1000))
    × (request.delivery_id ≡ codes "d1")
    × (request.payload ≡ codes "{}")
    × (distance 1200 1000 ≤ 300)
unfolding create_webhook_signing_headers
signature_is_bound_example =
    signature_is_bound keyed number_of (codes "k") (codes "{}") (codes "d1") 1000 request
      keyed-IsDigest keyed_alone (λ x e p. number_1000 x e) (λ x e. number_plain x e) (omega arith)
      (omega arith) refl request_verified

fraction_confuses_example :
    verify_timestamped_webhook_signature
      (λ key. constant_digest)
      number_of
      (record {
        payload = codes "y";
        timestamp = print 1000 ++ (b'.' ∷ codes "5");
        delivery_id = codes "x";
        signature =
            (create_webhook_signing_headers
              (λ key. constant_digest)
              (codes "k")
              (codes "x.y")
              (codes "5")
              1000).signature;
        secrets = codes "k" ∷ [];
        now_ms = 1200000;
        tolerance_seconds = none;
      })
    ≡ true
unfolding create_webhook_signing_headers print units_eq is_blank
fraction_confuses_example =
    fraction_confuses (λ key. constant_digest) number_of (codes "k") (codes "5") (codes "x")
      (codes "y") 1000 1200000 none half (λ key s. ones_IsDigest) refl refl refl refl

-- A queue, and a receiver that is down for the first two attempts.
abbrev bull : RetryPolicy
bull = record {
  again = λ made most for_good. elim for_good [ true ↦ false | false ↦ ltb made most ];
  not_after_unrecoverable = λ made most. refl;
  while_attempts_left = λ made most. refl;
}

abbrev outside : Outside
outside = record { sha256 = constant_digest; hmac_sha256 = λ key. constant_digest; id_text = print }

abbrev world_at : ℕ → World
world_at n = record {
  fetch = λ r.
      answered (record { status = if ltb n 2 then 503 else 200; status_text = []; body = none });
  timed_out = false;
  sent_at = 1000000 + n;
  answered_at = 1000100 + n;
  persist_works = true;
  disable_works = true;
  letter_works = true;
  database_error = [];
}

abbrev payload : WebhookDeliveryPayload
payload = record {
  url = codes "https://a.example";
  payload = codes "{}";
  secret = some (codes "k");
  delivery_id = 7;
  subscription_id = 3;
}

abbrev queued : WebhookDelivery
queued = record {
  id = 7;
  subscription_id = 3;
  status = pending;
  response_code = none;
  attempts = 0;
  next_attempt_at = none;
}

abbrev start : WebhookDb
start = record {
  attempt_rows = [];
  deliveries = queued ∷ [];
  subscriptions = record { id = 3; owner_id = 9; status = active } ∷ [];
  notices = [];
  dead_letters = [];
}

delivery_ends_example :
    (db' : WebhookDb) × (run_job ascii outside bull 5 world_at
        (schedule_webhook_delivery payload)
        start
      ≡ some db')
    × Settled ascii outside world_at (schedule_webhook_delivery payload) start db'
unfolding schedule_webhook_delivery find_delivery numbers_of
delivery_ends_example =
    delivery_ends ascii outside bull world_at (schedule_webhook_delivery payload) 5 start queued
      refl (omega arith) (omega arith) (λ n. record { persists = refl; disables = refl }) refl refl
