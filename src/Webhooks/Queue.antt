-- ===== src/Webhooks/Queue.antt =====
-- A delivery driven by its queue: the worker's calls of `processWebhookDelivery`
-- (backend/src/jobs/webhookDelivery.ts) with the handler of backend/src/jobs/deadLetter.ts. When the
-- queue runs a job again is a parameter, `RetryPolicy`, with what BullMQ documents of it.
pub mod Ends
use stellar_tipz.Base.{
  ℕ, zero, suc, ◌+◌, ◌≡◌, Bool, true, false, Option, none, some, ltb, if◌then◌else◌,
}
use stellar_tipz.Webhooks.{Units, WebhookDb, exhausted_webhook_delivery, record_dead_letter}
use stellar_tipz.Webhooks.Excerpt.{Codec}
use stellar_tipz.Webhooks.Attempt.{
  Outside, World, Job, JobResult, resolved, rejected, unrecoverable, max_attempts,
  process_webhook_delivery,
}

-- BullMQ: a job runs again after an error while it has attempts left, and never after an
-- `UnrecoverableError`. The arguments of `again` are the attempts made, their greatest number, and
-- whether the error is one.
pub record RetryPolicy : Type 0 where
  pub again : ℕ → ℕ → Bool → Bool
  pub not_after_unrecoverable : (made most : ℕ) → again made most true ≡ false
  pub while_attempts_left : (made most : ℕ) → again made most false ≡ ltb made most

-- The `failed` listener of `attachDeadLetterHandler` with the options of the webhook worker; the
-- job's count already has the failed attempt.
unfoldable pub dead_letter_handler : Job → World → Bool → Units → WebhookDb → WebhookDb
dead_letter_handler job w true message db = db
dead_letter_handler job w false message db =
    if ltb job.attempts_made (max_attempts job)
    then db
    else record_dead_letter w.letter_works
        (record {
          job_id = job.id;
          delivery_id = job.payload.delivery_id;
          subscription_id = job.payload.subscription_id;
          failure_kind = exhausted_webhook_delivery;
          failed_reason = message;
          attempts_made = job.attempts_made;
        })
        db

abbrev pub count_attempt : Job → Job
count_attempt job = record job { attempts_made = job.attempts_made + 1 }

-- What follows an attempt of the job `made`, which counts it; `rest` are the attempts after it.
unfoldable pub after_attempt :
    RetryPolicy
    → Job
    → World
    → (WebhookDb → Option WebhookDb)
    → JobResult
    → WebhookDb
    → Option WebhookDb
unfolding dead_letter_handler
after_attempt policy made w rest resolved db = some db
after_attempt policy made w rest (rejected message) db =
    let db' = dead_letter_handler made w false message db in
    if policy.again made.attempts_made (max_attempts made) false then rest db' else some db'
after_attempt policy made w rest (unrecoverable message) db =
    let db' = dead_letter_handler made w true message db in
    if policy.again made.attempts_made (max_attempts made) true then rest db' else some db'

-- The attempts of a job, each in its own world; `none` if the fuel runs out.
module _ (codec : Codec) (outside : Outside) (policy : RetryPolicy) where
  unfoldable pub run_job : ℕ → (ℕ → World) → Job → WebhookDb → Option WebhookDb
  unfolding after_attempt
  run_job zero worlds job db = none
  run_job (suc fuel) worlds job db =
      let w = worlds job.attempts_made in
      let made = count_attempt job in
      let step = process_webhook_delivery codec outside job w db in
      after_attempt policy made w (λ db'. run_job fuel worlds made db') step.1 step.0
