-- ===== src/Webhooks/Delay.antt =====
-- The classes of a response and the delays between attempts: `classifyWebhookResponse`,
-- `calculateWebhookRetryDelay`, `deterministicJitterUnit` and `webhookBackoffStrategy` of
-- backend/src/jobs/webhookDelivery.ts. The random share is a number of 2 ^ 32-ths, as the digest
-- gives it; with it every product of the source is exact in a double. SHA-256 and the text of an id
-- are arguments.
pub mod Growth
use stellar_tipz.Base.{
  ℕ, zero, suc, ◌+◌, ◌-◌, ◌*◌, ◌/◌, ◌^◌, ◌≤◌, ◌<◌, ◌≡◌, ◌&&◌, not, Option, none, some, List, [],
  ◌∷◌, ◌++◌, ◌==◌, ltb, leb, arith, if◌then◌else◌,
}
use stellar_tipz.Base.Decimal.{print}
use stellar_tipz.Base.Text.{codes}
use stellar_tipz.Webhooks.{Units}

pub data Classification : Type 0 where
  success : Classification
  permanent : Classification
  retryable : Classification

unfoldable pub classify_webhook_response : ℕ → Classification
classify_webhook_response status =
    if leb 200 status && ltb status 300
    then success
    else if leb 400 status && ltb status 500 && not (status == 429)
    then permanent
    else retryable

abbrev pub webhook_max_attempts : ℕ
webhook_max_attempts = 5

-- `WEBHOOK_BACKOFF_BASE_MS * 2 ** Math.max(0, retryNumber - 1)`
unfoldable pub base_delay : ℕ → ℕ
base_delay retry_number = 2000 * 2 ^ (retry_number - 1)

-- floor of the base times (1 - 0.5 + 0.5 * jitter / 2 ^ 32)
unfoldable pub calculate_webhook_retry_delay : ℕ → ℕ → ℕ
unfolding base_delay
calculate_webhook_retry_delay retry_number jitter =
    base_delay retry_number * (4294967296 + jitter) / 8589934592

-- `digest.readUInt32BE(0)`
unfoldable pub read_uint32_be : List ℕ → ℕ
read_uint32_be (a ∷ b ∷ c ∷ d ∷ rest) = a * 16777216 + b * 65536 + c * 256 + d
read_uint32_be _ = 0

unfoldable pub deterministic_jitter : (Units → List ℕ) → Units → ℕ → ℕ
unfolding read_uint32_be
deterministic_jitter sha256 identity retry_number =
    read_uint32_be (sha256 (identity ++ (b':' ∷ print retry_number)))

abbrev backoff_identity : (ℕ → Units) → Option ℕ → Option Units → Units
backoff_identity id_text (some delivery_id) job_id = id_text delivery_id
backoff_identity id_text none (some job_id) = job_id
backoff_identity id_text none none = codes "webhook-delivery"

-- `webhookBackoffStrategy` for its own type of backoff.
unfoldable pub webhook_backoff_strategy :
    (Units → List ℕ) → (ℕ → Units) → ℕ → Option ℕ → Option Units → ℕ
unfolding calculate_webhook_retry_delay deterministic_jitter
webhook_backoff_strategy sha256 id_text attempts_made delivery_id job_id =
    calculate_webhook_retry_delay attempts_made
      (deterministic_jitter sha256 (backoff_identity id_text delivery_id job_id) attempts_made)
