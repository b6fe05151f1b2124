-- ===== src/Webhooks.antt =====
-- The rows that a webhook delivery reads and writes: `persistAttempt` of
-- backend/src/jobs/webhookDelivery.ts, `disableWebhookSubscriptionAndNotify` of
-- backend/src/modules/notifications/notifications.service.ts and `recordDeadLetter` of
-- backend/src/jobs/deadLetter.ts. Times are milliseconds; a text is its list of UTF-16 code units.
pub mod Effects
pub mod Delay
pub mod Excerpt
pub mod Signing
pub mod Urls
pub mod Attempt
pub mod Queue
mod Tests
use stellar_tipz.Base.{
  ℕ, ◌+◌, Bool, true, false, ◌&&◌, ◌||◌, Option, none, some, List, ◌∷◌, ◌==◌, find, update_where,
  when_some, if◌then◌else◌,
}

abbrev pub Units : Type 0
Units = List ℕ

pub data DeliveryState : Type 0 where
  pending : DeliveryState
  success : DeliveryState
  failed : DeliveryState

pub data SubscriptionState : Type 0 where
  active : SubscriptionState
  disabled : SubscriptionState

-- `WebhookDeliveryAttempt`
pub record AttemptRow : Type 0 where
  pub delivery_id : ℕ
  pub attempt_number : ℕ
  pub response_code : Option ℕ
  pub response_body_excerpt : Option Units
  pub error_reason : Option Units

pub record WebhookDelivery : Type 0 where
  pub id : ℕ
  pub subscription_id : ℕ
  pub status : DeliveryState
  pub response_code : Option ℕ
  pub attempts : ℕ
  pub next_attempt_at : Option ℕ

pub record WebhookSubscription : Type 0 where
  pub id : ℕ
  pub owner_id : ℕ
  pub status : SubscriptionState

-- The notification of type `webhook_disabled`, with its delivery in the app.
pub record DisabledNotice : Type 0 where
  pub user_id : ℕ
  pub subscription_id : ℕ
  pub delivery_id : ℕ
  pub reason : Units

pub data FailureKind : Type 0 where
  permanent_webhook_state_persistence : (http_failure : Units) → FailureKind
  exhausted_webhook_delivery : FailureKind

-- A `DeadLetterJob` of the queue `webhook-delivery`, with its sanitized data.
pub record DeadLetterJob : Type 0 where
  pub job_id : ℕ
  pub delivery_id : ℕ
  pub subscription_id : ℕ
  pub failure_kind : FailureKind
  pub failed_reason : Units
  pub attempts_made : ℕ

pub record WebhookDb : Type 0 where
  pub attempt_rows : List AttemptRow
  pub deliveries : List WebhookDelivery
  pub subscriptions : List WebhookSubscription
  pub notices : List DisabledNotice
  pub dead_letters : List DeadLetterJob

-- `WebhookDeliveryPayload`; `payload` is the body, already printed as JSON.
pub record WebhookDeliveryPayload : Type 0 where
  pub url : Units
  pub payload : Units
  pub secret : Option Units
  pub delivery_id : ℕ
  pub subscription_id : ℕ

pub record AttemptState : Type 0 where
  pub attempt_number : ℕ
  pub response_code : Option ℕ
  pub response_body_excerpt : Option Units
  pub error_reason : Option Units
  pub status : DeliveryState
  pub next_attempt_at : Option ℕ

unfoldable pub find_delivery : ℕ → List WebhookDelivery → Option WebhookDelivery
find_delivery id ds = find (λ d. d.id == id) ds

unfoldable pub find_subscription : ℕ → List WebhookSubscription → Option WebhookSubscription
find_subscription id ss = find (λ s. s.id == id) ss

abbrev pub attempt_key : ℕ → ℕ → AttemptRow → Bool
attempt_key delivery_id attempt_number a =
    (a.delivery_id == delivery_id) && (a.attempt_number == attempt_number)

-- `webhookDeliveryAttempt.upsert`
unfoldable pub upsert_attempt :
    WebhookDeliveryPayload → AttemptState → List AttemptRow → List AttemptRow
upsert_attempt payload state rows =
    when_some (find (attempt_key payload.delivery_id state.attempt_number) rows)
      (record {
        delivery_id = payload.delivery_id;
        attempt_number = state.attempt_number;
        response_code = state.response_code;
        response_body_excerpt = state.response_body_excerpt;
        error_reason = state.error_reason;
      }
        ∷ rows)
      (λ _.
        update_where (attempt_key payload.delivery_id state.attempt_number)
          (λ a. record a {
            response_code = state.response_code;
            response_body_excerpt = state.response_body_excerpt;
            error_reason = state.error_reason;
          })
          rows)

unfoldable pub update_delivery : ℕ → AttemptState → List WebhookDelivery → List WebhookDelivery
update_delivery id state ds =
    update_where (λ d. d.id == id)
      (λ d. record d {
        status = state.status;
        response_code = state.response_code;
        attempts = state.attempt_number;
        next_attempt_at = state.next_attempt_at;
      })
      ds

-- One transaction: `none` if the database fails, or if it has no such delivery.
unfoldable pub persist_attempt :
    Bool → WebhookDeliveryPayload → AttemptState → WebhookDb → Option WebhookDb
unfolding find_delivery upsert_attempt update_delivery
persist_attempt works payload state db =
    if works
    then when_some (find_delivery payload.delivery_id db.deliveries) none (λ _. some (record db {
      attempt_rows = upsert_attempt payload state db.attempt_rows;
      deliveries = update_delivery payload.delivery_id state db.deliveries;
    }))
    else none

abbrev pub is_active : SubscriptionState → Bool
is_active active = true
is_active disabled = false

-- The transaction of `disableWebhookSubscriptionAndNotify`: `none` if the database fails.
unfoldable pub disable_subscription_and_notify : Bool → ℕ → ℕ → Units → WebhookDb → Option WebhookDb
unfolding find_subscription
disable_subscription_and_notify works subscription_id delivery_id reason db =
    if works
    then some (
        when_some (find_subscription subscription_id db.subscriptions) db (λ s.
          if is_active s.status
          then record db {
            subscriptions =
                update_where (λ x. (x.id == subscription_id) && is_active x.status)
                  (λ x. record x { status = disabled }) db.subscriptions;
            notices =
                record {
                  user_id = s.owner_id;
                  subscription_id = subscription_id;
                  delivery_id = delivery_id;
                  reason = reason;
                }
                ∷ db.notices;
          }
          else db))
    else none

-- `recordDeadLetter`; a failure of it is only logged.
unfoldable pub record_dead_letter : Bool → DeadLetterJob → WebhookDb → WebhookDb
record_dead_letter works job db =
    if works then record db { dead_letters = job ∷ db.dead_letters } else db
