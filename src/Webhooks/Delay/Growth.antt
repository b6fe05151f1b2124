-- ===== src/Webhooks/Delay/Growth.antt =====
-- How the delays between the attempts of a webhook delivery grow
-- (`calculateWebhookRetryDelay` of backend/src/jobs/webhookDelivery.ts).
use stellar_tipz.Base.{
  ℕ, zero, suc, ◌+◌, ◌-◌, ◌*◌, ◌/◌, ◌^◌, ◌≤◌, ◌<◌, ◌≡◌, ap, ◌∙◌, Option, List, [], ◌∷◌, length,
  arith, All,
}
use native.Mathlib.Nat.{one-le-pow, pow-succ'}
use stellar_tipz.Webhooks.{Units}
use stellar_tipz.Webhooks.Delay.{
  base_delay, calculate_webhook_retry_delay, read_uint32_be, deterministic_jitter,
  webhook_backoff_strategy,
}

-- A digest is a list of 32 bytes.
pub record IsDigest (d : List ℕ) : Type 0 where
  pub size : length d ≡ 32
  pub bytes : All (λ b. b < 256) d

read_uint32_be_bound : (d : List ℕ) → All (λ b. b < 256) d → read_uint32_be d < 4294967296
unfolding read_uint32_be
read_uint32_be_bound [] h = omega arith
read_uint32_be_bound (a ∷ []) h = omega arith
read_uint32_be_bound (a ∷ b ∷ []) h = omega arith
read_uint32_be_bound (a ∷ b ∷ c ∷ []) h = omega arith
read_uint32_be_bound (a ∷ b ∷ c ∷ d ∷ rest) (p, (q, (r, (s, t)))) = omega arith

-- What the jitter leaves of twice `c`.
scaled :
    (c u : ℕ)
    → u < 4294967296
    → 0 < c
    → (c ≤ 2 * c * (4294967296 + u) / 8589934592) × (2 * c * (4294967296 + u) / 8589934592 < 2 * c)
scaled c u h pos = grind arith

pow_pos : (n : ℕ) → 0 < 2 ^ n
pow_pos n = one-le-pow n 2 (omega arith)

pow_next : (n : ℕ) → 1 ≤ n → 2 ^ (n + 1 - 1) ≡ 2 * 2 ^ (n - 1)
pow_next zero h = absurd (omega arith)
pow_next (suc k) h =
    ap (λ i. 2 ^ i) (omega arith) ∙ pow-succ' 2 k ∙ ap (λ i. 2 * 2 ^ i) (omega arith)

base_delay-twice : (n : ℕ) → base_delay n ≡ 2 * (1000 * 2 ^ (n - 1))
unfolding base_delay
base_delay-twice n = omega arith

delay_within :
    (n u : ℕ)
    → u < 4294967296
    → (1000 * 2 ^ (n - 1) ≤ calculate_webhook_retry_delay n u)
      × (calculate_webhook_retry_delay n u < 2000 * 2 ^ (n - 1))
unfolding calculate_webhook_retry_delay
delay_within n u h =
    let (low, high) = scaled (1000 * 2 ^ (n - 1)) u h (omega (arith, pow_pos (n - 1))) in
    rw (base_delay-twice n) (low, omega (arith, high))

strategy_within :
    (sha256 : Units → List ℕ) (id_text : ℕ → Units)
    → ((s : Units) → IsDigest (sha256 s))
    → (n : ℕ) (id : Option ℕ) (job_id : Option Units)
    → (1000 * 2 ^ (n - 1) ≤ webhook_backoff_strategy sha256 id_text n id job_id)
      × (webhook_backoff_strategy sha256 id_text n id job_id < 2000 * 2 ^ (n - 1))
unfolding webhook_backoff_strategy deterministic_jitter
strategy_within sha256 id_text digests n id job_id =
    delay_within n _ (read_uint32_be_bound (sha256 _) ((digests _).bytes))

-- The delays that the backoff gives a delivery grow with every attempt, whatever the jitters: the one
-- after `n` attempts is at least 1000 * 2 ^ (n - 1) milliseconds and below twice that.
backoff_grows :
    (sha256 : Units → List ℕ) (id_text : ℕ → Units)
    → ((s : Units) → IsDigest (sha256 s))
    → (n : ℕ) (id : Option ℕ) (job_id : Option Units) → 1 ≤ n
    → let delay = λ (k : ℕ). webhook_backoff_strategy sha256 id_text k id job_id in
      (delay n < delay (n + 1))
      × (1000 * 2 ^ (n - 1) ≤ delay n)
      × (delay n < 2 * (1000 * 2 ^ (n - 1)))
backoff_grows sha256 id_text digests n id job_id h =
    let (low, high) = strategy_within sha256 id_text digests n id job_id in
    let (low', high') = strategy_within sha256 id_text digests (n + 1) id job_id in
    let next = pow_next n h in (omega (arith, high, low', next), low, omega (arith, high))
