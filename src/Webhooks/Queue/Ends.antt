-- ===== src/Webhooks/Queue/Ends.antt =====
-- The end of a webhook delivery that its queue drives (backend/src/jobs/webhookDelivery.ts).
use stellar_tipz.Base.{
  ℕ, zero, suc, ◌+◌, ◌≤◌, ◌<◌, ◌≡◌, ◌≢◌, refl, sym, ap, ◌∙◌, inl, inr, ◌⊎◌, Bool, true, false, not,
  ◌&&◌, none, some, List, [], ◌∷◌, ltb, length, ◌==◌, arith, Bool-cases, if◌then◌else◌,
}
use stellar_tipz.Webhooks.{Units, WebhookDelivery, WebhookDb, find_delivery, record_dead_letter}
use stellar_tipz.Webhooks.Effects.{Under, numbers_of, is_active_in, notices_of, updated}
use stellar_tipz.Webhooks.Delay.{Classification}
use stellar_tipz.Webhooks.Excerpt.{Codec}
use stellar_tipz.Webhooks.Attempt.{
  Outside, World, Job, JobResult, resolved, rejected, unrecoverable, max_attempts, webhook_request,
  process_webhook_delivery,
}
use stellar_tipz.Webhooks.Attempt.Verdict.{
  IsHealthy, Outcome, verdict, status_after, is_failed, is_last, kind_of, retry_time,
  process-Outcome,
}
use stellar_tipz.Webhooks.Queue.{RetryPolicy, dead_letter_handler, after_attempt, run_job}

-- n, n - 1, ..., 1
unfoldable pub countdown : ℕ → List ℕ
countdown zero = []
countdown (suc n) = suc n ∷ countdown n

countdown-Under : (bound n : ℕ) → n < bound → Under bound (countdown n)
unfolding countdown
countdown-Under bound zero h = tt
countdown-Under bound (suc n) h = (h, countdown-Under bound n (omega arith))

countdown_next : (n : ℕ) → countdown (n + 1) ≡ (n + 1) ∷ countdown n
unfolding countdown
countdown_next n = let e : n + 1 ≡ suc n = omega arith in rw e refl

JobResult-cases :
    (r : JobResult)
    → (r ≡ resolved) ⊎ (((m : Units) × (r ≡ rejected m)) ⊎ ((m : Units) × (r ≡ unrecoverable m)))
JobResult-cases resolved = inl refl
JobResult-cases (rejected m) = inr (inl (m, refl))
JobResult-cases (unrecoverable m) = inr (inr (m, refl))

abbrev is_retryable : Classification → Bool
is_retryable Classification.retryable = true
is_retryable _ = false

abbrev pub at : ℕ → Job → Job
at k job = record job { attempts_made = k }

-- The end of a delivery: its attempts are those up to the first one that the receiver accepts or
-- refuses for good, or all that it has.
pub record Settled (codec : Codec) (outside : Outside) (worlds : ℕ → World) (job : Job)
    (db db' : WebhookDb) : Type 0 where
  pub last : ℕ
  pub within : last < max_attempts job
  pub earlier : (j : ℕ) → j < last → verdict codec outside job (worlds j) ≡ Classification.retryable
  pub stopped :
      verdict codec outside job (worlds last) ≡ Classification.retryable
      → last + 1 ≡ max_attempts job
  pub delivery : WebhookDelivery
  pub found : find_delivery job.payload.delivery_id db'.deliveries ≡ some delivery
  pub status : delivery.status ≡ status_after (verdict codec outside job (worlds last)) true
  pub attempts : delivery.attempts ≡ last + 1
  pub no_retry : delivery.next_attempt_at ≡ none
  pub numbers : numbers_of job.payload.delivery_id db'.attempt_rows ≡ countdown (last + 1)
  pub active :
      is_active_in job.payload.subscription_id db'.subscriptions
      ≡ not (is_failed delivery.status) && is_active_in job.payload.subscription_id db.subscriptions
  pub notices :
      notices_of job.payload.subscription_id db'.notices
      ≡ notices_of job.payload.subscription_id db.notices
        + (if is_failed delivery.status && is_active_in job.payload.subscription_id db.subscriptions
            then 1
            else 0)
  pub letters :
      length db'.dead_letters
      ≡ length db.dead_letters
        + (if is_retryable (verdict codec outside job (worlds last)) && (worlds last).letter_works
            then 1
            else 0)

apart : Classification.retryable ≢ Classification.success
apart e = cc

for_good : Classification.retryable ≢ Classification.permanent
for_good e = cc

last_status :
    (c : Classification) (last : Bool)
    → (c ≡ Classification.retryable → last ≡ true)
    → status_after c last ≡ status_after c true
last_status Classification.success last h = refl
last_status Classification.permanent last h = refl
last_status Classification.retryable last h = rw (h refl) refl

no_retry_time :
    (outside : Outside) (job : Job) (w : World) (c : Classification)
    → retry_time outside job w (status_after c true) ≡ none
no_retry_time outside job w Classification.success = refl
no_retry_time outside job w Classification.permanent = refl
no_retry_time outside job w Classification.retryable = refl

-- The same rows but for the dead letters.
record SameRows (db db' : WebhookDb) : Type 0 where
  deliveries : db'.deliveries ≡ db.deliveries
  attempt_rows : db'.attempt_rows ≡ db.attempt_rows
  subscriptions : db'.subscriptions ≡ db.subscriptions
  notices : db'.notices ≡ db.notices

same_rows : (db : WebhookDb) → SameRows db db
same_rows db = record {
  deliveries = refl;
  attempt_rows = refl;
  subscriptions = refl;
  notices = refl;
}

-- The handler writes one letter if the attempts are used up, and changes nothing else.
handler_exhausted :
    (job : Job) (w : World) (m : Units) (db : WebhookDb)
    → ltb job.attempts_made (max_attempts job) ≡ false
    → SameRows db (dead_letter_handler job w false m db)
      × (length ((dead_letter_handler job w false m db).dead_letters)
          ≡ length db.dead_letters + (if w.letter_works then 1 else 0))
unfolding dead_letter_handler record_dead_letter
handler_exhausted job w m db h = elim (Bool-cases w.letter_works) [
  | inl p ↦
      rw (h, p)
        (
          record { deliveries = refl; attempt_rows = refl; subscriptions = refl; notices = refl },
          omega arith,
        )
  | inr p ↦ rw (h, p) (same_rows db, omega arith)
]

module _ (codec : Codec) (outside : Outside) (policy : RetryPolicy) (worlds : ℕ → World)
    (job : Job) where
  abbrev verdict_at : ℕ → Classification
  verdict_at k = verdict codec outside job (worlds k)

  next_numbers :
      (k : ℕ) (j : Job) (db : WebhookDb) (d : WebhookDelivery) (r : WebhookDb × JobResult)
      → Outcome outside (at k j) (worlds k) db d (verdict_at k) r
      → numbers_of j.payload.delivery_id db.attempt_rows ≡ countdown k
      → numbers_of j.payload.delivery_id ((r.0).attempt_rows) ≡ countdown (k + 1)
  next_numbers k j db d r o numbers =
      o.effect.numbers
      ∙ ap (λ n. n ∷ numbers_of j.payload.delivery_id db.attempt_rows) o.number
      ∙ ap (λ ns. (k + 1) ∷ ns) numbers
      ∙ sym (countdown_next k)

  -- The last attempt.
  settle :
      (k : ℕ) (db db1 db' : WebhookDb) (d : WebhookDelivery) (r : JobResult)
      → k < max_attempts job
      → ((j : ℕ) → j < k → verdict_at j ≡ Classification.retryable)
      → (verdict_at k ≡ Classification.retryable → k + 1 ≡ max_attempts job)
      → numbers_of job.payload.delivery_id db.attempt_rows ≡ countdown k
      → Outcome outside (at k job) (worlds k) db d (verdict_at k) (db1, r)
      → SameRows db1 db'
      → length db'.dead_letters
        ≡ length db1.dead_letters
          + (if is_retryable (verdict_at k) && (worlds k).letter_works then 1 else 0)
      → Settled codec outside worlds job db db'
  settle k db db1 db' d r lt earlier stopped numbers o same letters =
      let final =
        last_status (verdict_at k) (is_last (at k job)) (λ e. ground (arith, stopped e)) in
      let was_active = is_active_in job.payload.subscription_id db.subscriptions in
      record {
        last = k;
        within = lt;
        earlier = earlier;
        stopped = stopped;
        delivery = updated o.state d;
        found = rw same.deliveries (o.effect.delivery);
        status = o.status ∙ final;
        attempts = o.number;
        no_retry =
            o.retry
            ∙ ap (retry_time outside (at k job) (worlds k)) final
            ∙ no_retry_time outside (at k job) (worlds k) (verdict_at k);
        numbers = rw same.attempt_rows (next_numbers k job db d (db1, r) o numbers);
        active =
            rw same.subscriptions
              (o.effect.active ∙ ap (λ s. not (is_failed s) && was_active) (sym o.status));
        notices = rw same.notices (
            o.effect.notices
            ∙ ap
                (λ s.
                  notices_of job.payload.subscription_id db.notices
                  + (if is_failed s && was_active then 1 else 0))
                (sym o.status));
        letters =
            letters
            ∙ ap
                (λ ls.
                  length ls
                  + (if is_retryable (verdict_at k) && (worlds k).letter_works then 1 else 0))
                o.effect.letters;
      }

  earlier_next :
      (k : ℕ)
      → ((j : ℕ) → j < k → verdict_at j ≡ Classification.retryable)
      → verdict_at k ≡ Classification.retryable
      → (j : ℕ) → j < k + 1
      → verdict_at j ≡ Classification.retryable
  earlier_next k earlier v j lt = elim (Bool-cases (j == k)) [
    | inl same ↦ let j_k : j ≡ k = ground (arith, same) in ap (λ i. verdict_at i) j_k ∙ v
    | inr other ↦ earlier j (ground (arith, other))
  ]

  -- What was settled from a later state on.
  rebase :
      (db db1 db' : WebhookDb)
      → is_active_in job.payload.subscription_id db1.subscriptions
        ≡ is_active_in job.payload.subscription_id db.subscriptions
      → notices_of job.payload.subscription_id db1.notices
        ≡ notices_of job.payload.subscription_id db.notices
      → length db1.dead_letters ≡ length db.dead_letters
      → Settled codec outside worlds job db1 db'
      → Settled codec outside worlds job db db'
  rebase db db1 db' active notices letters s = record {
    last = s.last;
    within = s.within;
    earlier = s.earlier;
    stopped = s.stopped;
    delivery = s.delivery;
    found = s.found;
    status = s.status;
    attempts = s.attempts;
    no_retry = s.no_retry;
    numbers = s.numbers;
    active = s.active ∙ ap (λ a. not (is_failed s.delivery.status) && a) active;
    notices = s.notices ∙ rw (notices, active) refl;
    letters = s.letters ∙ rw letters refl;
  }

  -- From the attempt `k` on, with enough fuel for the attempts that are left.
  run_job-Settled :
      (fuel k : ℕ) (db : WebhookDb) (d : WebhookDelivery)
      → max_attempts job ≤ k + fuel
      → k < max_attempts job
      → ((n : ℕ) → IsHealthy (worlds n))
      → find_delivery job.payload.delivery_id db.deliveries ≡ some d
      → numbers_of job.payload.delivery_id db.attempt_rows ≡ countdown k
      → ((j : ℕ) → j < k → verdict_at j ≡ Classification.retryable)
      → (db' : WebhookDb) × (run_job codec outside policy fuel worlds (at k job) db ≡ some db')
        × Settled codec outside worlds job db db'
  unfolding run_job after_attempt dead_letter_handler record_dead_letter verdict webhook_request
  run_job-Settled zero k db d enough lt healthy found numbers earlier = absurd (omega arith)
  run_job-Settled (suc fuel) k db d enough lt healthy found numbers earlier =
      let below : Under (k + 1) (numbers_of job.payload.delivery_id db.attempt_rows) =
        rw numbers (countdown-Under (k + 1) k (omega arith)) in
      let step = process_webhook_delivery codec outside (at k job) (worlds k) db in
      let o : Outcome outside (at k job) (worlds k) db d (verdict_at k) step =
        process-Outcome codec outside (at k job) (worlds k) db d found below (healthy k) in
      let kind : (v : JobResult) → step.1 ≡ v → verdict_at k ≡ kind_of v =
        λ v e. sym o.kind ∙ ap kind_of e in
      let plain : length ((step.0).dead_letters) ≡ length ((step.0).dead_letters) + 0 =
        omega arith in
      elim (JobResult-cases step.1) [
        | inl e ↦ (
          step.0,
          rw e refl,
          settle k db step.0 step.0 d step.1 lt earlier
              (λ r. absurd (apart (sym r ∙ kind resolved e))) numbers o (same_rows step.0)
              (rw (kind resolved e) plain),
        )
        | inr (inr (m, e)) ↦ (
          step.0,
          rw (e, policy.not_after_unrecoverable (k + 1) (max_attempts job)) refl,
          settle k db step.0 step.0 d step.1 lt earlier
              (λ r. absurd (for_good (sym r ∙ kind (unrecoverable m) e))) numbers o
              (same_rows step.0) (rw (kind (unrecoverable m) e) plain),
        )
        | inr (inl (m, e)) ↦
            let v = kind (rejected m) e in
            let made = at (k + 1) job in
            elim (Bool-cases (ltb (k + 1) (max_attempts job))) [
              | inr p ↦
                  let (rows, letters) = handler_exhausted made (worlds k) m step.0 p in
                  (
                    dead_letter_handler made (worlds k) false m step.0,
                    rw (e, policy.while_attempts_left (k + 1) (max_attempts job), p) refl,
                    settle k db step.0 (dead_letter_handler made (worlds k) false m step.0) d step.1
                        lt earlier (λ r. ground (arith, p)) numbers o rows (rw v letters),
                  )
              | inl p ↦
                  let more : is_last (at k job) ≡ false = ground (arith, p) in
                  let quiet : is_failed (status_after (verdict_at k) (is_last (at k job))) ≡ false =
                    rw (v, more) refl in
                  let (db', run, settled) =
                    run_job-Settled fuel (k + 1) step.0 (updated o.state d) (omega arith)
                      (ground (arith, p)) healthy o.effect.delivery
                      (next_numbers k job db d step o numbers) (earlier_next k earlier v) in
                  (
                    db',
                    rw (e, policy.while_attempts_left (k + 1) (max_attempts job), p) run,
                    rebase db step.0 db' (o.effect.active ∙ rw quiet refl)
                        (o.effect.notices ∙ rw quiet (omega arith))
                        (ap (λ ls. length ls) o.effect.letters) settled,
                  )
            ]
      ]

  -- A delivery of at least one attempt that its queue drives from the first attempt on ends, with
  -- fuel for its attempts, if the database works and has the delivery without attempts: at the
  -- first attempt that the receiver accepts or refuses for good, or at the last one. It is then a
  -- success or failed, and no attempt is planned; each attempt has its row, once; a subscription
  -- that was active is disabled, with one notice, exactly if the delivery failed; and a dead letter
  -- is written, where its storage works, exactly if the attempts were used up by failures that may
  -- be tried again.
  pub delivery_ends :
      (fuel : ℕ) (db : WebhookDb) (d : WebhookDelivery)
      → job.attempts_made ≡ 0
      → 0 < max_attempts job
      → max_attempts job ≤ fuel
      → ((n : ℕ) → IsHealthy (worlds n))
      → find_delivery job.payload.delivery_id db.deliveries ≡ some d
      → numbers_of job.payload.delivery_id db.attempt_rows ≡ []
      → (db' : WebhookDb) × (run_job codec outside policy fuel worlds job db ≡ some db')
        × Settled codec outside worlds job db db'
  unfolding countdown
  delivery_ends fuel db d fresh some_attempt enough healthy found none_yet =
      let same : at 0 job ≡ job = ap (λ n. record job { attempts_made = n }) (sym fresh) in
      let (db', run, settled) =
        run_job-Settled fuel 0 db d (omega arith) some_attempt healthy found none_yet
          (λ j lt. absurd (omega arith)) in
      (db', ap (λ j. run_job codec outside policy fuel worlds j db) (sym same) ∙ run, settled)
