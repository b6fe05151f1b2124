-- ===== src/Webhooks/Effects.antt =====
-- What the writes of one attempt change of its delivery and its subscription
-- (backend/src/jobs/webhookDelivery.ts).
use stellar_tipz.Base.{
  ℕ, ◌+◌, ◌<◌, ◌≡◌, refl, sym, ap, ◌∙◌, inl, inr, Bool, true, false, not, ◌&&◌, none, some, List,
  [], ◌∷◌, ◌==◌, find, find_hit, find_miss, update_where, when_some, ==_iff, arith, Bool-cases,
  Option-cases, if◌then◌else◌,
}
use stellar_tipz.Webhooks.{
  Units, AttemptRow, WebhookDelivery, WebhookSubscription, DisabledNotice, WebhookDb,
  WebhookDeliveryPayload, AttemptState, disabled, find_delivery, find_subscription, attempt_key,
  is_active, upsert_attempt, update_delivery, persist_attempt, disable_subscription_and_notify,
}

-- Is there a subscription of this id, and is it active?
unfoldable pub is_active_in : ℕ → List WebhookSubscription → Bool
unfolding find_subscription
is_active_in id ss = when_some (find_subscription id ss) false (λ s. is_active s.status)

-- The notices of one subscription.
unfoldable pub notices_of : ℕ → List DisabledNotice → ℕ
notices_of id [] = 0
notices_of id (n ∷ ns) = (if n.subscription_id == id then 1 else 0) + notices_of id ns

-- The numbers of a delivery's attempts, the newest first.
unfoldable pub numbers_of : ℕ → List AttemptRow → List ℕ
numbers_of id [] = []
numbers_of id (a ∷ as_) =
    let rest = numbers_of id as_ in if a.delivery_id == id then a.attempt_number ∷ rest else rest

abbrev pub updated : AttemptState → WebhookDelivery → WebhookDelivery
updated state d = record d {
  status = state.status;
  response_code = state.response_code;
  attempts = state.attempt_number;
  next_attempt_at = state.next_attempt_at;
}

find-update :
    (id : ℕ) (state : AttemptState) (ds : List WebhookDelivery) (d : WebhookDelivery)
    → find_delivery id ds ≡ some d
    → find_delivery id (update_delivery id state ds) ≡ some (updated state d)
unfolding find_delivery update_delivery
find-update id state [] d e = absurd (ground arith)
find-update id state (x ∷ xs) d e = elim (Bool-cases (x.id == id)) [
  | inl p ↦
      let same : x ≡ d = find_hit (λ y. y.id == id) x d xs p e in
      rw (p, p) (ap (λ y. some (updated state y)) same)
  | inr p ↦ rw (p, p) (find-update id state xs d (sym (find_miss (λ y. y.id == id) x xs p) ∙ e))
]

-- A row that is not there yet is the newest.
numbers_of-upsert_attempt :
    (payload : WebhookDeliveryPayload) (state : AttemptState) (rows : List AttemptRow)
    → find (attempt_key payload.delivery_id state.attempt_number) rows ≡ none
    → numbers_of payload.delivery_id (upsert_attempt payload state rows)
      ≡ state.attempt_number ∷ numbers_of payload.delivery_id rows
unfolding upsert_attempt numbers_of
numbers_of-upsert_attempt payload state rows e = rw e (ground arith)

-- No row has a number that all numbers of the delivery are below.
abbrev pub Under : ℕ → List ℕ → Type 0
Under bound [] = Unit
Under bound (n ∷ ns) = (n < bound) × Under bound ns

Under-find :
    (id bound : ℕ) (rows : List AttemptRow)
    → Under bound (numbers_of id rows)
    → find (attempt_key id bound) rows ≡ none
unfolding numbers_of
Under-find id bound [] h = refl
Under-find id bound (a ∷ as_) h = elim (Bool-cases (a.delivery_id == id)) [
  | inl p ↦
      let split : (a.attempt_number < bound) × Under bound (numbers_of id as_) = rw p at h in
      let rest = Under-find id bound as_ split.1 in
      let other : (a.attempt_number == bound) ≡ false = ground (arith, split.0) in
      rw (p, other) rest
  | inr p ↦
      let below : Under bound (numbers_of id as_) = rw p at h in
      rw p (Under-find id bound as_ below)
]

abbrev disable_row : WebhookSubscription → WebhookSubscription
disable_row x = record x { status = disabled }

disable_hits :
    (id : ℕ) (ss : List WebhookSubscription)
    → is_active_in id (update_where (λ x. (x.id == id) && is_active x.status) disable_row ss)
      ≡ false
unfolding is_active_in find_subscription
disable_hits id [] = refl
disable_hits id (s ∷ ss) = elim (Bool-cases (s.id == id)) [
  | inl p ↦ elim (Bool-cases (is_active s.status)) [
    | inl q ↦ rw (p, q, p) refl
    | inr q ↦ rw (p, q, p) q
  ]
  | inr p ↦ rw (p, p) (disable_hits id ss)
]

-- What a written state, and the disabling of the subscription after it, change.
pub record Effect (payload : WebhookDeliveryPayload) (state : AttemptState) (off : Bool)
    (d : WebhookDelivery) (db db' : WebhookDb) : Type 0 where
  pub delivery : find_delivery payload.delivery_id db'.deliveries ≡ some (updated state d)
  pub numbers :
      numbers_of payload.delivery_id db'.attempt_rows
      ≡ state.attempt_number ∷ numbers_of payload.delivery_id db.attempt_rows
  pub active :
      is_active_in payload.subscription_id db'.subscriptions
      ≡ not off && is_active_in payload.subscription_id db.subscriptions
  pub notices :
      notices_of payload.subscription_id db'.notices
      ≡ notices_of payload.subscription_id db.notices
        + (if off && is_active_in payload.subscription_id db.subscriptions then 1 else 0)
  pub letters : db'.dead_letters ≡ db.dead_letters

abbrev pub persisted : WebhookDeliveryPayload → AttemptState → WebhookDb → WebhookDb
persisted payload state db = record db {
  attempt_rows = upsert_attempt payload state db.attempt_rows;
  deliveries = update_delivery payload.delivery_id state db.deliveries;
}

module _ (payload : WebhookDeliveryPayload) (state : AttemptState) (d : WebhookDelivery)
    (db : WebhookDb) (found : find_delivery payload.delivery_id db.deliveries ≡ some d) where
  pub persist_attempt-persisted :
      persist_attempt true payload state db ≡ some (persisted payload state db)
  unfolding persist_attempt
  persist_attempt-persisted = rw found refl

  pub persisted-Effect :
      Under state.attempt_number (numbers_of payload.delivery_id db.attempt_rows)
      → Effect payload state false d db (persisted payload state db)
  persisted-Effect below = record {
    delivery = find-update payload.delivery_id state db.deliveries d found;
    numbers =
        numbers_of-upsert_attempt payload state db.attempt_rows
          (Under-find payload.delivery_id state.attempt_number db.attempt_rows below);
    active = refl;
    notices = omega arith;
    letters = refl;
  }

-- The disabling of a subscription that is not active, or not there.
idle-Effect :
    (payload : WebhookDeliveryPayload) (state : AttemptState) (d : WebhookDelivery)
    (db db1 : WebhookDb)
    → is_active_in payload.subscription_id db1.subscriptions ≡ false
    → Effect payload state false d db db1
    → Effect payload state true d db db1
idle-Effect payload state d db db1 idle e = record {
  delivery = e.delivery;
  numbers = e.numbers;
  active = idle;
  notices = ground (arith, e.notices, e.active, idle);
  letters = e.letters;
}

-- The disabling succeeds, and gives the rest of the effect.
pub disabled-Effect :
    (payload : WebhookDeliveryPayload) (state : AttemptState) (d : WebhookDelivery) (reason : Units)
    (db db1 : WebhookDb)
    → Effect payload state false d db db1
    → (db2 : WebhookDb) × (disable_subscription_and_notify true payload.subscription_id
          payload.delivery_id reason db1
        ≡ some db2)
      × Effect payload state true d db db2
unfolding disable_subscription_and_notify is_active_in notices_of
disabled-Effect payload state d reason db db1 e =
    elim (Option-cases (find_subscription payload.subscription_id db1.subscriptions)) [
      | inl p ↦ (db1, rw p refl, idle-Effect payload state d db db1 (rw p refl) e)
      | inr (s, p) ↦ elim (Bool-cases (is_active s.status)) [
        | inr q ↦ (db1, rw (p, q) refl, idle-Effect payload state d db db1 (rw p q) e)
        | inl q ↦
            let id = payload.subscription_id in
            let was : is_active_in id db.subscriptions ≡ true = sym e.active ∙ rw p q in
            (
              record db1 {
                subscriptions =
                    update_where (λ x. (x.id == id) && is_active x.status) disable_row
                      db1.subscriptions;
                notices =
                    record {
                      user_id = s.owner_id;
                      subscription_id = id;
                      delivery_id = payload.delivery_id;
                      reason = reason;
                    }
                    ∷ db1.notices;
              },
              rw (p, q) refl,
              record {
                delivery = e.delivery;
                numbers = e.numbers;
                active = disable_hits id db1.subscriptions;
                notices = ground (arith, e.notices, was, ==_iff id id);
                letters = e.letters;
              },
            )
      ]
    ]
