-- ===== src/Common/Retry/Loop.antt =====
-- The loop of `withRetry` in backend/src/common/utils/retry.ts.
use stellar_tipz.Base.{
  ℕ, zero, suc, ◌+◌, ◌-◌, ◌≤◌, ◌<◌, max, ◌≡◌, ◌⊎◌, inl, inr, refl, Bool, true, false, not, ◌||◌,
  Option, some, List, [], ◌∷◌, arith, All, leb, Bool-cases,
}
use mathlib.Core.Path.{subst}
use native.Mathlib.Decide.{dec_lt}
use stellar_tipz.Common.Retry.{
  RetryOptions, Attempt, value, failure, RetryResult, returned, threw, aborted, Run, compute_delay,
  is_idempotent, retry_loop, with_retry,
}
use stellar_tipz.Common.Retry.Delay.{compute_delay-le}

-- Is the outcome a failure that may be retried?
abbrev pub MayRetry : {A E : Type 0} → (E → Bool) → Attempt A E → Type 0
MayRetry is_retryable (value a) = ⊥
MayRetry is_retryable (failure e) = is_retryable e ≡ true

module _ {A E : Type 0} (o : RetryOptions) (is_retryable : E → Bool) (fn : ℕ → Attempt A E) where
  -- After `attempt` failed calls that were all retried.
  pub record HasRetried (attempt : ℕ) (waits : List ℕ) : Type 0 where
    pub room : attempt < max 1 o.max_attempts
    pub retried_before : (i : ℕ) → i < attempt → MayRetry is_retryable (fn i)
    pub idempotent : 0 < attempt → is_idempotent o.method o.has_key ≡ true
    pub short_waits : All (λ w. w ≤ o.max_delay_ms) waits

  -- A run that returns or throws does so with what the call of the given number came to; it throws
  -- only if the operation is not idempotent, the failure may not be retried, or it was the last.
  abbrev pub Ended : RetryResult A E → ℕ → Type 0
  Ended (returned a) last = fn last ≡ value a
  Ended (threw e) last =
      (fn last ≡ failure e)
      × ((is_idempotent o.method o.has_key ≡ false)
          ⊎ (is_retryable e ≡ false)
          ⊎ (o.max_attempts ≤ last + 1))
  Ended aborted last = Unit

  -- A finished run: it ended as its last call did, `fn` was called at most `maxAttempts` times (or
  -- once), each call before the last failed in a way that may be retried, a second call was made
  -- only if the operation is idempotent, and no wait is above the ceiling.
  pub record IsSound (r : Run A E) : Type 0 where
    pub ended : Ended r.result (r.calls - 1)
    pub few_calls : r.calls ≤ max 1 o.max_attempts
    pub retried_before : (i : ℕ) → i + 1 < r.calls → MayRetry is_retryable (fn i)
    pub idempotent : 1 < r.calls → is_idempotent o.method o.has_key ≡ true
    pub short_waits : All (λ w. w ≤ o.max_delay_ms) r.waits

  module _ (random : ℕ → ℕ) (random_le : (x : ℕ) → random x ≤ x) (before after : ℕ → Bool) where
    -- the three tests after a failure
    stops : ℕ → E → Bool
    stops attempt e =
        not (is_idempotent o.method o.has_key)
        || not (is_retryable e)
        || leb o.max_attempts (attempt + 1)

    stops-failure :
        (attempt : ℕ) (e : E)
        → stops attempt e ≡ false
        → (is_idempotent o.method o.has_key ≡ true)
          × (is_retryable e ≡ true)
          × (attempt + 1 < o.max_attempts)
    unfolding stops
    stops-failure attempt e go = ground arith

    retried_up_to :
        (attempt : ℕ) {waits : List ℕ} (e : E)
        → fn attempt ≡ failure e
        → stops attempt e ≡ false
        → HasRetried attempt waits
        → (i : ℕ) → i < attempt + 1
        → MayRetry is_retryable (fn i)
    retried_up_to attempt e out go h i below = elim (dec_lt i attempt) [
      | yes p ↦ h.retried_before i p
      | no p ↦ let here : i ≡ attempt = omega arith in rw (here, out) (stops-failure attempt e go).1
    ]

    next-HasRetried :
        (attempt : ℕ) (waits : List ℕ) (e : E)
        → fn attempt ≡ failure e
        → stops attempt e ≡ false
        → HasRetried attempt waits
        → HasRetried (attempt + 1) (compute_delay random (attempt + 1) o ∷ waits)
    next-HasRetried attempt waits e out go h = record {
      room = omega (arith, stops-failure attempt e go);
      retried_before = retried_up_to attempt e out go h;
      idempotent = λ _. (stops-failure attempt e go).0;
      short_waits = (compute_delay-le random random_le (attempt + 1) o, h.short_waits);
    }

    aborted-IsSound :
        (attempt : ℕ) (waits : List ℕ)
        → HasRetried attempt waits
        → IsSound (record { result = aborted; calls = attempt; waits = waits })
    aborted-IsSound attempt waits h = record {
      ended = tt;
      few_calls = omega (arith, h.room);
      retried_before = λ i below. h.retried_before i (omega arith);
      idempotent = λ many. h.idempotent (omega arith);
      short_waits = h.short_waits;
    }

    last-IsSound :
        (attempt : ℕ) (waits : List ℕ) (result : RetryResult A E)
        → Ended result attempt
        → HasRetried attempt waits
        → IsSound (record { result = result; calls = attempt + 1; waits = waits })
    last-IsSound attempt waits result ended h = record {
      ended = subst (Ended result) (omega arith) ended;
      few_calls = omega (arith, h.room);
      retried_before = λ i below. h.retried_before i (omega arith);
      idempotent = λ many. h.idempotent (omega arith);
      short_waits = h.short_waits;
    }

    stops-Ended :
        (attempt : ℕ) (e : E)
        → fn attempt ≡ failure e
        → stops attempt e ≡ true
        → Ended (threw e) attempt
    unfolding stops
    stops-Ended attempt e out stop = ground arith

    abbrev loop : ℕ → ℕ → List ℕ → Option (Run A E)
    loop = retry_loop random o is_retryable fn before after

    -- The result of a run, as a statement about the option that the loop computes.
    abbrev Finishes : Option (Run A E) → Type 0
    Finishes found = (r : Run A E) × (found ≡ some r) × IsSound r

    after_call :
        (fuel attempt : ℕ) (waits : List ℕ) (out : Attempt A E)
        → fn attempt ≡ out
        → before attempt ≡ false
        → HasRetried attempt waits
        → ((e : E)
            → fn attempt ≡ failure e
            → stops attempt e ≡ false
            → Finishes (loop fuel (attempt + 1) (compute_delay random (attempt + 1) o ∷ waits)))
        → Finishes (loop (suc fuel) attempt waits)
    unfolding retry_loop stops
    after_call fuel attempt waits (value a) out live h rest =
        (_, rw (live, out), last-IsSound attempt waits (returned a) out h)
    after_call fuel attempt waits (failure e) out live h rest =
        elim (Bool-cases (stops attempt e)) [
          | inl stop ↦ (
            _,
            rw (live, out, stop),
            last-IsSound attempt waits (threw e) (stops-Ended attempt e out stop) h,
          )
          | inr go ↦ elim (Bool-cases (after attempt)) [
            | inl late ↦ (
              _,
              rw (live, out, go, late),
              aborted-IsSound (attempt + 1) _ (next-HasRetried attempt waits e out go h),
            )
            | inr on ↦ rw (live, out, go, on) (rest e out go)
          ]
        ]

    loop_sound :
        (fuel attempt : ℕ) (waits : List ℕ)
        → max 1 o.max_attempts ≤ fuel + attempt
        → HasRetried attempt waits
        → Finishes (loop fuel attempt waits)
    unfolding retry_loop
    loop_sound zero attempt waits enough h = absurd (omega (arith, h.room))
    loop_sound (suc fuel) attempt waits enough h = elim (Bool-cases (before attempt)) [
      | inl gone ↦ (_, rw gone, aborted-IsSound attempt waits h)
      | inr live ↦ after_call fuel attempt waits (fn attempt) refl live h λ e out go.
          loop_sound fuel (attempt + 1) (compute_delay random (attempt + 1) o ∷ waits) (omega arith)
            (next-HasRetried attempt waits e out go h)
    ]

    -- `withRetry` always comes to an end, with a run that is sound.
    pub with_retry-IsSound :
        (r : Run A E) × (with_retry random o is_retryable fn before after ≡ some r) × IsSound r
    unfolding with_retry
    with_retry-IsSound = loop_sound (o.max_attempts + 1) 0 [] (omega arith) (record {
      room = omega arith;
      retried_before = λ i below. absurd (omega arith);
      idempotent = λ pos. absurd (omega arith);
      short_waits = tt;
    })
