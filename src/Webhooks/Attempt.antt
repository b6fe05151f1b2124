-- ===== src/Webhooks/Attempt.antt =====
-- One attempt of a webhook delivery: `attemptDetails`, `processWebhookDelivery`,
-- `recordPermanentFailure` and `scheduleWebhookDelivery` of backend/src/jobs/webhookDelivery.ts. What
-- the network, the clock and the database do during the attempt is an argument, `World`.
pub mod Verdict
use stellar_tipz.Base.{
  ℕ, zero, suc, ◌+◌, ◌/◌, Bool, true, false, ◌&&◌, ◌||◌, Option, none, some, List, [], ◌∷◌, ◌++◌,
  leb, when_some, if◌then◌else◌,
}
use stellar_tipz.Base.Text.{codes}
use stellar_tipz.Base.Decimal.{print}
use stellar_tipz.Webhooks.{
  Units, DeliveryState, pending, failed, FailureKind, permanent_webhook_state_persistence,
  WebhookDb, WebhookDeliveryPayload, AttemptState, persist_attempt, disable_subscription_and_notify,
  record_dead_letter,
}
use stellar_tipz.Webhooks.Delay.{
  Classification, classify_webhook_response, calculate_webhook_retry_delay, deterministic_jitter,
  webhook_max_attempts,
}
use stellar_tipz.Webhooks.Excerpt.{
  Codec, Thrown, Response, excerpt, unreadable, bounded_reason, read_response_body_excerpt,
}
use stellar_tipz.Webhooks.Signing.{WebhookSigningHeaders, create_webhook_signing_headers}

-- Node's digests, and the texts of ids.
pub record Outside : Type 0 where
  pub sha256 : Units → List ℕ
  pub hmac_sha256 : Units → Units → List ℕ
  pub id_text : ℕ → Units

-- The request but for its constant headers.
pub record WebhookRequest : Type 0 where
  pub url : Units
  pub body : Units
  pub signing : Option WebhookSigningHeaders

-- `safeWebhookFetch`
pub data FetchResult : Type 0 where
  refused : Thrown → FetchResult
  answered : Response → FetchResult

pub record World : Type 0 where
  pub fetch : WebhookRequest → FetchResult
  pub timed_out : Bool
  pub sent_at : ℕ
  pub answered_at : ℕ
  pub persist_works : Bool
  pub disable_works : Bool
  pub letter_works : Bool
  pub database_error : Units

pub record Job : Type 0 where
  pub id : ℕ
  pub payload : WebhookDeliveryPayload
  pub attempts_made : ℕ
  pub attempts : Option ℕ

-- How the run of a job ends: by the message of an error, if not well.
pub data JobResult : Type 0 where
  resolved : JobResult
  rejected : Units → JobResult
  unrecoverable : Units → JobResult

unfoldable pub schedule_webhook_delivery : WebhookDeliveryPayload → Job
schedule_webhook_delivery payload = record {
  id = payload.delivery_id;
  payload = payload;
  attempts_made = 0;
  attempts = some webhook_max_attempts;
}

abbrev pub max_attempts : Job → ℕ
max_attempts job = when_some job.attempts 1 (λ n. n)

abbrev pub is_permanent : Classification → Bool
is_permanent Classification.permanent = true
is_permanent _ = false

abbrev pub status_of : Option Response → Option ℕ
status_of none = none
status_of (some r) = some r.status

-- The class of an attempt whose request or whose answer's body failed.
abbrev pub transport_class : Option Response → Classification
transport_class none = Classification.retryable
transport_class (some r) = classify_webhook_response r.status

unfoldable pub transport_reason : Bool → Thrown → Units
transport_reason true e = codes "Delivery timed out after 10000ms"
transport_reason false (some message) = message
transport_reason false none = codes "Webhook transport failure"

unfoldable pub http_reason : Response → Units
http_reason r =
    codes "HTTP " ++ (print r.status ++ elim r.status_text [ [] ↦ [] | c ∷ cs ↦ b' ' ∷ c ∷ cs ])

unfoldable pub permanent_reason : Option Response → Units → Units
permanent_reason none reason = codes "HTTP undefined: " ++ reason
permanent_reason (some r) reason = codes "HTTP " ++ (print r.status ++ (codes ": " ++ reason))

module _ (codec : Codec) (outside : Outside) where
  unfoldable pub webhook_request : Job → World → WebhookRequest
  webhook_request job w = record {
    url = job.payload.url;
    body = job.payload.payload;
    signing = elim job.payload.secret [
      | none ↦ none
      | some [] ↦ none
      | some (c ∷ cs) ↦ some (
          create_webhook_signing_headers outside.hmac_sha256 (c ∷ cs) job.payload.payload
            (outside.id_text job.payload.delivery_id) (w.sent_at / 1000))
    ];
  }

  -- `attemptDetails(job).retryDelay`
  unfoldable pub retry_delay : Job → ℕ
  retry_delay job =
      let attempt_number = job.attempts_made + 1 in
      calculate_webhook_retry_delay attempt_number (
        deterministic_jitter outside.sha256 (outside.id_text job.payload.delivery_id)
          attempt_number)

  -- The state of a failed attempt.
  unfoldable pub failed_state : Job → World → Option ℕ → Option Units → Units → Bool → AttemptState
  unfolding retry_delay
  failed_state job w code body reason terminal = record {
    attempt_number = job.attempts_made + 1;
    response_code = code;
    response_body_excerpt = body;
    error_reason = some reason;
    status = if terminal then failed else pending;
    next_attempt_at = if terminal then none else some (w.answered_at + retry_delay job);
  }

  -- The dead letter of a permanent failure that could not be written.
  unfoldable pub persistence_letter : Job → World → Units → WebhookDb → WebhookDb
  persistence_letter job w reason db =
      record_dead_letter w.letter_works
        (record {
          job_id = job.id;
          delivery_id = job.payload.delivery_id;
          subscription_id = job.payload.subscription_id;
          failure_kind = permanent_webhook_state_persistence reason;
          failed_reason =
              codes "Permanent webhook "
              ++ (reason
                  ++ (codes "; state persistence failed: "
                      ++ bounded_reason codec w.database_error));
          attempts_made = job.attempts_made + 1;
        })
        db

  abbrev disable_after_terminal_failure : Job → World → Units → WebhookDb → Option WebhookDb
  disable_after_terminal_failure job w reason db =
      disable_subscription_and_notify w.disable_works job.payload.subscription_id
        job.payload.delivery_id (bounded_reason codec reason) db

  unfoldable pub record_permanent_failure :
      Job → World → AttemptState → Units → WebhookDb → WebhookDb × JobResult
  unfolding persistence_letter
  record_permanent_failure job w state reason db =
      when_some (persist_attempt w.persist_works job.payload state db)
        (persistence_letter job w reason db, unrecoverable reason)
        (λ db1.
          when_some (disable_after_terminal_failure job w reason db1)
            (persistence_letter job w reason db1, unrecoverable reason)
            (λ db2. (db2, unrecoverable reason)))

  -- A failure that is not permanent: the last one disables the subscription.
  unfoldable pub record_failure :
      Job → World → AttemptState → Bool → Units → Units → WebhookDb → WebhookDb × JobResult
  record_failure job w state terminal reason message db =
      when_some (persist_attempt w.persist_works job.payload state db)
        (db, rejected w.database_error)
        (λ db1.
          if terminal
          then when_some (disable_after_terminal_failure job w reason db1)
              (db1, rejected w.database_error) (λ db2. (db2, rejected message))
          else (db1, rejected message))

  -- The failure of the request, or of the reading of the answer's body.
  unfoldable pub transport_failure :
      Job → World → Option Response → Thrown → WebhookDb → WebhookDb × JobResult
  unfolding failed_state record_permanent_failure record_failure
  transport_failure job w response e db =
      let reason = transport_reason w.timed_out e in
      let permanent = is_permanent (transport_class response) in
      let terminal = permanent || leb (max_attempts job) (job.attempts_made + 1) in
      let state =
        failed_state job w (status_of response) none (bounded_reason codec reason) terminal in
      if permanent
      then record_permanent_failure job w state (permanent_reason response reason) db
      else record_failure job w state terminal reason (when_some e reason (λ message. message)) db

  -- An answer with its body read, by its class.
  unfoldable pub answer_classified :
      Job → World → Response → Option Units → Classification → WebhookDb → WebhookDb × JobResult
  unfolding failed_state record_permanent_failure record_failure
  answer_classified job w response body Classification.success db =
      when_some
        (persist_attempt w.persist_works job.payload
          (record {
            attempt_number = job.attempts_made + 1;
            response_code = some response.status;
            response_body_excerpt = body;
            error_reason = none;
            status = DeliveryState.success;
            next_attempt_at = none;
          })
          db)
        (db, rejected w.database_error) (λ db1. (db1, resolved))
  answer_classified job w response body Classification.permanent db =
      let reason = http_reason response in
      let state = failed_state job w (some response.status) body reason true in
      record_permanent_failure job w state reason db
  answer_classified job w response body Classification.retryable db =
      let terminal = leb (max_attempts job) (job.attempts_made + 1) in
      let reason = http_reason response in
      let state = failed_state job w (some response.status) body reason terminal in
      record_failure job w state terminal reason reason db

  unfoldable pub answer : Job → World → Response → Option Units → WebhookDb → WebhookDb × JobResult
  unfolding answer_classified
  answer job w response body db =
      answer_classified job w response body (classify_webhook_response response.status) db

  unfoldable pub process_webhook_delivery : Job → World → WebhookDb → WebhookDb × JobResult
  unfolding transport_failure answer webhook_request
  process_webhook_delivery job w db = elim (w.fetch (webhook_request job w)) [
    | refused e ↦ transport_failure job w none e db
    | answered r ↦ elim (read_response_body_excerpt codec r 1024) [
      | unreadable e ↦ transport_failure job w (some r) e db
      | excerpt body ↦ answer job w r body db
    ]
  ]
