-- ===== src/Webhooks/Attempt/Verdict.antt =====
-- What one attempt of a delivery comes to by the class of its answer
-- (`processWebhookDelivery` of backend/src/jobs/webhookDelivery.ts), while the database works.
use stellar_tipz.Base.{ℕ, ◌+◌, ◌≡◌, refl, Bool, true, false, Option, none, some, leb, if◌then◌else◌}
use stellar_tipz.Webhooks.{
  Units, DeliveryState, pending, failed, WebhookDelivery, WebhookDb, AttemptState, find_delivery,
}
use stellar_tipz.Webhooks.Effects.{
  Effect, Under, numbers_of, persist_attempt-persisted, persisted-Effect, disabled-Effect,
}
use stellar_tipz.Webhooks.Delay.{
  Classification, classify_webhook_response, webhook_backoff_strategy,
}
use stellar_tipz.Webhooks.Excerpt.{
  Codec, Thrown, Response, Excerpt, excerpt, unreadable, bounded_reason, read_response_body_excerpt,
}
use stellar_tipz.Webhooks.Attempt.{
  Outside, FetchResult, refused, answered, World, Job, JobResult, resolved, rejected, unrecoverable,
  max_attempts, retry_delay, webhook_request, failed_state, record_permanent_failure,
  record_failure, transport_failure, answer, answer_classified, process_webhook_delivery,
  transport_class,
}

-- An answer counts as a success only if its body could be read.
abbrev pub unless_success : Classification → Classification
unless_success Classification.permanent = Classification.permanent
unless_success _ = Classification.retryable

abbrev pub verdict_of_read : Response → Excerpt → Classification
verdict_of_read r (unreadable e) = unless_success (classify_webhook_response r.status)
verdict_of_read r (excerpt body) = classify_webhook_response r.status

abbrev verdict_of_fetch : Codec → FetchResult → Classification
verdict_of_fetch codec (refused e) = Classification.retryable
verdict_of_fetch codec (answered r) = verdict_of_read r (read_response_body_excerpt codec r 1024)

-- The class of an attempt in its world.
unfoldable pub verdict : Codec → Outside → Job → World → Classification
verdict codec outside job w = verdict_of_fetch codec (w.fetch (webhook_request codec outside job w))

abbrev pub status_after : Classification → Bool → DeliveryState
status_after Classification.success last = DeliveryState.success
status_after Classification.permanent last = failed
status_after Classification.retryable last = if last then failed else pending

abbrev pub is_failed : DeliveryState → Bool
is_failed failed = true
is_failed _ = false

abbrev pub kind_of : JobResult → Classification
kind_of resolved = Classification.success
kind_of (rejected message) = Classification.retryable
kind_of (unrecoverable reason) = Classification.permanent

abbrev pub is_last : Job → Bool
is_last job = leb (max_attempts job) (job.attempts_made + 1)

-- The time of the next attempt is that of the queue's own backoff.
abbrev pub retry_time : Outside → Job → World → DeliveryState → Option ℕ
retry_time outside job w pending = some (
    w.answered_at
    + webhook_backoff_strategy outside.sha256 outside.id_text (job.attempts_made + 1)
        (some job.payload.delivery_id) none)
retry_time outside job w _ = none

-- The database does not fail during the attempt.
pub record IsHealthy (w : World) : Type 0 where
  pub persists : w.persist_works ≡ true
  pub disables : w.disable_works ≡ true

pub record Outcome (outside : Outside) (job : Job) (w : World) (db : WebhookDb)
    (d : WebhookDelivery) (v : Classification) (r : WebhookDb × JobResult) : Type 0 where
  pub state : AttemptState
  pub number : state.attempt_number ≡ job.attempts_made + 1
  pub status : state.status ≡ status_after v (is_last job)
  pub retry : state.next_attempt_at ≡ retry_time outside job w (status_after v (is_last job))
  pub kind : kind_of r.1 ≡ v
  pub effect : Effect job.payload state (is_failed (status_after v (is_last job))) d db r.0

module _ (codec : Codec) (outside : Outside) (job : Job) (w : World) (db : WebhookDb)
    (d : WebhookDelivery) (found : find_delivery job.payload.delivery_id db.deliveries ≡ some d)
    (below : Under (job.attempts_made + 1) (numbers_of job.payload.delivery_id db.attempt_rows))
    (healthy : IsHealthy w) where
  -- A permanent failure.
  permanent-Outcome :
      (code : Option ℕ) (body : Option Units) (reason written : Units)
      → Outcome outside job w db d Classification.permanent (
          record_permanent_failure codec outside job w
            (failed_state codec outside job w code body written true)
            reason
            db)
  unfolding record_permanent_failure failed_state
  permanent-Outcome code body reason written =
      let state = failed_state codec outside job w code body written true in
      let first = persisted-Effect job.payload state d db found below in
      let (db2, e, effect) =
        disabled-Effect job.payload state d (bounded_reason codec reason) db _ first in
      rw (healthy.persists, persist_attempt-persisted job.payload state d db found)
        (rw (healthy.disables, e)
          (record {
            state = state;
            number = refl;
            status = refl;
            retry = refl;
            kind = refl;
            effect = effect;
          }))

  -- A failure that may be tried again, the last one or not.
  retry-Outcome :
      (code : Option ℕ) (body : Option Units) (reason written message : Units) (last : Bool)
      → is_last job ≡ last
      → Outcome outside job w db d Classification.retryable (
          record_failure codec outside job w
            (failed_state codec outside job w code body written last)
            last
            reason
            message
            db)
  unfolding record_failure failed_state retry_delay webhook_backoff_strategy
  retry-Outcome code body reason written message true l =
      let state = failed_state codec outside job w code body written true in
      let first = persisted-Effect job.payload state d db found below in
      let (db2, e, effect) =
        disabled-Effect job.payload state d (bounded_reason codec reason) db _ first in
      rw (healthy.persists, persist_attempt-persisted job.payload state d db found)
        (rw (healthy.disables, e)
          (record {
            state = state;
            number = refl;
            status = rw l refl;
            retry = rw l refl;
            kind = refl;
            effect = rw l effect;
          }))
  retry-Outcome code body reason written message false l =
      let state = failed_state codec outside job w code body written false in
      rw (healthy.persists, persist_attempt-persisted job.payload state d db found)
        (record {
          state = state;
          number = refl;
          status = rw l refl;
          retry = rw l refl;
          kind = refl;
          effect = rw l (persisted-Effect job.payload state d db found below);
        })

  transport_cases :
      (response : Option Response) (e : Thrown) (c : Classification)
      → transport_class response ≡ c
      → Outcome outside job w db d
          (unless_success c)
          (transport_failure codec outside job w response e db)
  unfolding transport_failure
  transport_cases response e Classification.permanent k = rw k (permanent-Outcome _ _ _ _)
  transport_cases response e Classification.success k =
      rw k (retry-Outcome _ _ _ _ _ (is_last job) refl)
  transport_cases response e Classification.retryable k =
      rw k (retry-Outcome _ _ _ _ _ (is_last job) refl)

  answer_cases :
      (r : Response) (body : Option Units) (c : Classification)
      → Outcome outside job w db d c (answer_classified codec outside job w r body c db)
  unfolding answer_classified
  answer_cases r body Classification.permanent = permanent-Outcome _ _ _ _
  answer_cases r body Classification.retryable = retry-Outcome _ _ _ _ _ (is_last job) refl
  answer_cases r body Classification.success =
      let state : AttemptState = record {
        attempt_number = job.attempts_made + 1;
        response_code = some r.status;
        response_body_excerpt = body;
        error_reason = none;
        status = DeliveryState.success;
        next_attempt_at = none;
      } in
      rw (healthy.persists, persist_attempt-persisted job.payload state d db found)
        (record {
          state = state;
          number = refl;
          status = refl;
          retry = refl;
          kind = refl;
          effect = persisted-Effect job.payload state d db found below;
        })

  transport-Outcome :
      (response : Option Response) (e : Thrown)
      → Outcome outside job w db d
          (unless_success (transport_class response))
          (transport_failure codec outside job w response e db)
  transport-Outcome response e = transport_cases response e (transport_class response) refl

  answer-Outcome :
      (r : Response) (body : Option Units)
      → Outcome outside job w db d
          (classify_webhook_response r.status)
          (answer codec outside job w r body db)
  unfolding answer
  answer-Outcome r body = answer_cases r body (classify_webhook_response r.status)

  read_cases :
      (r : Response) (x : Excerpt)
      → Outcome outside job w db d (verdict_of_read r x) (elim x [
        | unreadable e ↦ transport_failure codec outside job w (some r) e db
        | excerpt body ↦ answer codec outside job w r body db
      ])
  read_cases r (unreadable e) = transport-Outcome (some r) e
  read_cases r (excerpt body) = answer-Outcome r body

  fetch_cases :
      (f : FetchResult)
      → Outcome outside job w db d (verdict_of_fetch codec f) (elim f [
        | refused e ↦ transport_failure codec outside job w none e db
        | answered r ↦ elim (read_response_body_excerpt codec r 1024) [
          | unreadable e ↦ transport_failure codec outside job w (some r) e db
          | excerpt body ↦ answer codec outside job w r body db
        ]
      ])
  fetch_cases (refused e) = transport-Outcome none e
  fetch_cases (answered r) = read_cases r (read_response_body_excerpt codec r 1024)

  pub process-Outcome :
      Outcome outside job w db d
        (verdict codec outside job w)
        (process_webhook_delivery codec outside job w db)
  unfolding verdict process_webhook_delivery
  process-Outcome = fetch_cases (w.fetch (webhook_request codec outside job w))
