-- ===== src/Subscriptions/Confirmed.antt =====
-- The confirmation of a charge ends in time
-- (backend/src/modules/subscriptions/subscriptions.service.ts).
use stellar_tipz.Base.{
  ℕ, zero, suc, ◌+◌, ◌≤◌, ◌<◌, ◌≡◌, ◌≢◌, ◌⊎◌, refl, ap, ◌∙◌, inl, inr, Bool, true, false, Option,
  none, some, leb, ◌==◌, when_some, arith, Bool-cases,
}
use stellar_tipz.Subscriptions.{
  TransactionAnswer, success, failed, not_found, call_failed, Round, Charge, charged, thrown,
  ChargeError, no_contract, no_keeper, account_failed, simulation_failed, confirmation_timed_out,
  transaction_failed, transaction_call_failed, ConfirmationOptions, default_confirmation_timeout_ms,
  default_confirmation_poll_interval_ms, next_poll, confirm_loop, confirm_subscription_charge,
  SendStatus, send_failed, error, try_again, pending, duplicate, Submission, after_send,
  charge_subscription_on_chain,
}

-- What an answer ends the confirmation with, if it does.
abbrev pub verdict : TransactionAnswer → Option Charge
verdict success = some charged
verdict failed = some (thrown transaction_failed)
verdict call_failed = some (thrown transaction_call_failed)
verdict not_found = none

module _ (deadline poll_interval : ℕ) (rounds : ℕ → Round) where
  -- The time at which a round begins, so many rounds after round `k`, which begins at `now`.
  unfoldable pub start_of : ℕ → ℕ → ℕ → ℕ
  start_of k now zero = now
  start_of k now (suc n) = start_of (k + 1) (next_poll deadline poll_interval now (rounds k)) n

  -- How the rounds from `k` on end.
  pub record Ended (k now : ℕ) (r : Charge) : Type 0 where
    pub before : ℕ
    pub last : ℕ
    pub place : last ≡ k + before
    pub unfinished : (j : ℕ) → k ≤ j → j < last → (rounds j).answer ≡ not_found
    pub ending :
        ((verdict ((rounds last).answer) ≡ some r) × (start_of k now before < deadline))
        ⊎ ((r ≡ thrown confirmation_timed_out)
            × (deadline ≤ start_of k now before + (rounds last).took))

  at_once-Ended :
      (k now : ℕ) (r : Charge)
      → ((verdict ((rounds k).answer) ≡ some r) × (now < deadline))
        ⊎ ((r ≡ thrown confirmation_timed_out) × (deadline ≤ now + (rounds k).took))
      → Ended k now r
  unfolding start_of
  at_once-Ended k now r ending = record {
    before = 0;
    last = k;
    place = omega arith;
    unfinished = λ j ge lt. absurd (omega arith);
    ending = ending;
  }

  after_round-Ended :
      (k now : ℕ) (r : Charge)
      → (rounds k).answer ≡ not_found
      → Ended (k + 1) (next_poll deadline poll_interval now (rounds k)) r
      → Ended k now r
  unfolding start_of
  after_round-Ended k now r e d = record {
    before = suc d.before;
    last = d.last;
    place = omega (arith, d.place);
    unfinished = λ j ge lt. elim (Bool-cases (j == k)) [
      | inl p ↦ let same : j ≡ k = ground (arith, p) in ap (λ i. (rounds i).answer) same ∙ e
      | inr p ↦ d.unfinished j (ground (arith, p, ge)) lt
    ];
    ending = d.ending;
  }

  Answer-cases :
      (a : TransactionAnswer)
      → (a ≡ success) ⊎ ((a ≡ failed) ⊎ ((a ≡ call_failed) ⊎ (a ≡ not_found)))
  Answer-cases success = inl refl
  Answer-cases failed = inr (inl refl)
  Answer-cases call_failed = inr (inr (inl refl))
  Answer-cases not_found = inr (inr (inr refl))

  -- The loop ends with fuel for every millisecond before the deadline.
  confirm_loop-Ended :
      (fuel k now : ℕ)
      → 1 ≤ poll_interval
      → 0 < fuel
      → deadline < now + fuel
      → (r : Charge) × (confirm_loop fuel deadline poll_interval rounds k now ≡ some r)
        × Ended k now r
  unfolding confirm_loop next_poll
  confirm_loop-Ended zero k now interval pos enough = absurd (omega arith)
  confirm_loop-Ended (suc fuel) k now interval pos enough = elim (Bool-cases (leb deadline now)) [
    | inl p ↦ (
      thrown confirmation_timed_out,
      rw p refl,
      at_once-Ended k now _ (inr (refl, ground (arith, p))),
    )
    | inr p ↦
        let early : now < deadline = ground (arith, p) in
        elim (Answer-cases ((rounds k).answer)) [
          | inl e ↦ (charged, rw (p, e) refl, at_once-Ended k now _ (inl (rw e refl, early)))
          | inr (inl e) ↦ (
            thrown transaction_failed,
            rw (p, e) refl,
            at_once-Ended k now _ (inl (rw e refl, early)),
          )
          | inr (inr (inl e)) ↦ (
            thrown transaction_call_failed,
            rw (p, e) refl,
            at_once-Ended k now _ (inl (rw e refl, early)),
          )
          | inr (inr (inr e)) ↦ elim (Bool-cases (leb deadline (now + (rounds k).took))) [
            | inl q ↦ (
              thrown confirmation_timed_out,
              rw (p, e, q) refl,
              at_once-Ended k now _ (inr (refl, ground (arith, q))),
            )
            | inr q ↦
                let (r, run, ended) =
                  confirm_loop-Ended fuel (k + 1) (next_poll deadline poll_interval now (rounds k))
                    interval (omega (arith, early)) (ground (arith, q)) in
                (r, rw (p, e, q) run, after_round-Ended k now r e ended)
          ]
        ]
  ]

abbrev pub timeout_of : ConfirmationOptions → ℕ
timeout_of o = when_some o.timeout_ms default_confirmation_timeout_ms (λ t. t)

abbrev pub interval_of : ConfirmationOptions → ℕ
interval_of o = when_some o.poll_interval_ms default_confirmation_poll_interval_ms (λ t. t)

abbrev pub is_accepted : SendStatus → Bool
is_accepted pending = true
is_accepted duplicate = true
is_accepted _ = false

-- A charge that was made: the network took the transaction, and said in a round that began in time,
-- after rounds in which it did not know it, that it succeeded.
pub record Made (o : ConfirmationOptions) (s : Submission) (rounds : ℕ → Round) (now : ℕ)
    : Type 0 where
  pub taken : is_accepted s.send_status ≡ true
  pub last : ℕ
  pub succeeded : (rounds last).answer ≡ success
  pub unfinished : (j : ℕ) → j < last → (rounds j).answer ≡ not_found
  pub in_time : start_of (now + timeout_of o) (interval_of o) rounds 0 now last < now + timeout_of o

charged_verdict :
    (a : TransactionAnswer) (r : Charge) → verdict a ≡ some r → r ≡ charged → a ≡ success
charged_verdict success r e c = refl
charged_verdict failed r e c = absurd (ground (arith, e, c))
charged_verdict call_failed r e c = absurd (ground (arith, e, c))
charged_verdict not_found r e c = absurd (ground (arith, e, c))

confirmed-Made :
    (o : ConfirmationOptions) (s : Submission) (rounds : ℕ → Round) (now : ℕ) (r : Charge)
    → is_accepted s.send_status ≡ true
    → Ended (now + timeout_of o) (interval_of o) rounds 0 now r
    → r ≡ charged
    → Made o s rounds now
confirmed-Made o s rounds now r accepted d c = elim d.ending [
  | inr (timed_out, late) ↦ absurd (ground (arith, timed_out, c))
  | inl (answer, early) ↦
      let place : d.last ≡ d.before = omega (arith, d.place) in
      record {
        taken = accepted;
        last = d.last;
        succeeded = charged_verdict _ r answer c;
        unfinished = λ j lt. d.unfinished j (omega arith) lt;
        in_time = rw place early;
      }
]

-- What is refused before the confirmation is no charge.
refused : (e : ChargeError) → thrown e ≢ charged
refused e h = cc

abbrev pub Ends : Option Charge → (Charge → Type 0) → Type 0
Ends o P = (r : Charge) × (o ≡ some r) × P r

sent_ends :
    (o : ConfirmationOptions) (s : Submission) (rounds : ℕ → Round) (now fuel : ℕ)
    (status : SendStatus)
    → s.send_status ≡ status
    → 1 ≤ interval_of o
    → timeout_of o < fuel
    → Ends
        (after_send status (confirm_subscription_charge fuel o rounds now))
        (λ r. r ≡ charged → Made o s rounds now)
unfolding confirm_subscription_charge
sent_ends o s rounds now fuel send_failed e i f = (_, refl, λ h. absurd (refused _ h))
sent_ends o s rounds now fuel error e i f = (_, refl, λ h. absurd (refused _ h))
sent_ends o s rounds now fuel try_again e i f = (_, refl, λ h. absurd (refused _ h))
sent_ends o s rounds now fuel pending e i f =
    let (r, run, d) =
      confirm_loop-Ended (now + timeout_of o) (interval_of o) rounds fuel 0 now i (omega arith)
        (omega arith) in
    (r, run, confirmed-Made o s rounds now r (rw e refl) d)
sent_ends o s rounds now fuel duplicate e i f =
    let (r, run, d) =
      confirm_loop-Ended (now + timeout_of o) (interval_of o) rounds fuel 0 now i (omega arith)
        (omega arith) in
    (r, run, confirmed-Made o s rounds now r (rw e refl) d)

-- A charge on the chain ends, with fuel for every millisecond of its timeout, if it polls at an
-- interval of a millisecond or more; and it is made only if the network took the transaction and
-- said, in a round that began before the deadline, that it succeeded, all rounds before it having left
-- it open.
pub charge_ends :
    (o : ConfirmationOptions) (s : Submission) (rounds : ℕ → Round) (now fuel : ℕ)
    → 1 ≤ interval_of o
    → timeout_of o < fuel
    → (r : Charge) × (charge_subscription_on_chain fuel o s rounds now ≡ some r)
      × (r ≡ charged → Made o s rounds now)
unfolding charge_subscription_on_chain
charge_ends o s rounds now fuel i f = elim (Bool-cases s.has_contract) [
  | inr p ↦ (_, rw p refl, λ h. absurd (refused no_contract h))
  | inl p ↦ elim (Bool-cases s.has_keeper) [
    | inr q ↦ (_, rw (p, q) refl, λ h. absurd (refused no_keeper h))
    | inl q ↦ elim (Bool-cases s.account_found) [
      | inr t ↦ (_, rw (p, q, t) refl, λ h. absurd (refused account_failed h))
      | inl t ↦ elim (Bool-cases s.simulates) [
        | inr u ↦ (_, rw (p, q, t, u) refl, λ h. absurd (refused simulation_failed h))
        | inl u ↦
            let (r, run, made) = sent_ends o s rounds now fuel s.send_status refl i f in
            let confirmation = confirm_subscription_charge fuel o rounds now in
            let through : charge_subscription_on_chain fuel o s rounds now
                ≡ after_send s.send_status confirmation =
              rw (p, q, t, u) refl in
            (r, through ∙ run, made)
      ]
    ]
  ]
]
