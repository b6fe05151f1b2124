-- ===== src/Common/Retry.antt =====
-- Retries with exponential backoff (backend/src/common/utils/retry.ts).
-- `fn` is the function from the number of the call to its outcome, the abort signal the function
-- from the number of a check to its answer, `Math.random() * x` a parameter.
pub mod Loop
pub mod Delay
pub mod Transient
mod Tests
use stellar_tipz.Base.{
  ℕ, zero, suc, ◌+◌, ◌-◌, ◌*◌, ◌^◌, ◌≤◌, min, ◌≡◌, Bool, true, false, not, ◌&&◌, ◌||◌, Option, none,
  some, List, [], ◌∷◌, ◌++◌, ltb, leb, ◌==◌, if◌then◌else◌,
}
use stellar_tipz.Base.Text.{String, codes}

-- Text as code points, lower case, and `includes`. Letters other than ASCII are left alone.
abbrev pub lower : ℕ → ℕ
lower c = if leb b'A' c && leb c b'Z' then c + 32 else c

abbrev upper : ℕ → ℕ
upper c = if leb b'a' c && leb c b'z' then c - 32 else c

abbrev pub map_codes : (ℕ → ℕ) → List ℕ → List ℕ
map_codes f [] = []
map_codes f (c ∷ cs) = f c ∷ map_codes f cs

starts : List ℕ → List ℕ → Bool
starts [] s = true
starts (c ∷ cs) [] = false
starts (c ∷ cs) (d ∷ s) = (c == d) && starts cs s

includes : List ℕ → List ℕ → Bool
unfolding starts
includes word [] = starts word []
includes word (c ∷ s) = starts word (c ∷ s) || includes word s

-- Does `message` have one of the words?
unfoldable pub has_any : List String → List ℕ → Bool
unfolding includes
has_any [] message = false
has_any (w ∷ ws) message = includes (codes w) message || has_any ws message

abbrev pub same_codes : List ℕ → List ℕ → Bool
same_codes [] [] = true
same_codes (c ∷ cs) (d ∷ ds) = (c == d) && same_codes cs ds
same_codes _ _ = false

abbrev pub is_one_of : List String → List ℕ → Bool
is_one_of [] s = false
is_one_of (w ∷ ws) s = same_codes (codes w) s || is_one_of ws s

-- What was thrown: a `DOMException`, an `Error` with the status that it carries, or neither.
pub data Thrown : Type 0 where
  dom_exception : String → List ℕ → Option ℕ → Thrown
  error : String → List ℕ → Option ℕ → Thrown
  other : Thrown

abbrev pub network_words : List String
network_words =
    "timeout" ∷ "timed out" ∷ "network" ∷ "connection" ∷ "econnrefused" ∷ "econnreset"
    ∷ "socket hang up" ∷ []

abbrev status_words : List String
status_words =
    "rate limit" ∷ "too many requests" ∷ "service unavailable" ∷ "bad gateway" ∷ "gateway timeout"
    ∷ "internal server error" ∷ []

-- The check of a status: `none` where the code goes on to the words of the message.
unfoldable pub status_verdict : Option ℕ → Option Bool
status_verdict none = none
status_verdict (some code) =
    if (code == 429) || (code == 408) || (code == 502) || (code == 503) || (code == 504)
    then some true
    else if leb 400 code && ltb code 500
    then some false
    else if leb 500 code
    then some true
    else none

unfoldable pub is_transient_status : Option ℕ → List ℕ → Bool
unfolding status_verdict has_any
is_transient_status status message = elim (status_verdict status) [
  | some verdict ↦ verdict
  | none ↦ has_any status_words message
]

-- The branch `error instanceof Error`.
unfoldable pub is_transient_named : String → List ℕ → Option ℕ → Bool
unfolding is_transient_status has_any
is_transient_named name message status =
    if is_one_of ("AbortError" ∷ "TimeoutError" ∷ []) (codes name)
    then true
    else if has_any network_words (map_codes lower message)
    then true
    else is_transient_status status (map_codes lower message)

-- A `DOMException` is an `Error` too.
unfoldable pub is_transient_error : Thrown → Bool
unfolding is_transient_named
is_transient_error (dom_exception name message status) =
    if is_one_of ("TimeoutError" ∷ []) (codes name)
    then true
    else if is_one_of ("AbortError" ∷ []) (codes name)
    then false
    else is_transient_named name message status
is_transient_error (error name message status) = is_transient_named name message status
is_transient_error other = false

abbrev pub idempotent_methods : List String
idempotent_methods = "GET" ∷ "HEAD" ∷ "PUT" ∷ "DELETE" ∷ "OPTIONS" ∷ "TRACE" ∷ []

-- The method, if given and not empty, and whether the trimmed idempotency key is not empty.
unfoldable pub is_idempotent : Option (List ℕ) → Bool → Bool
is_idempotent none key = true
is_idempotent (some []) key = true
is_idempotent (some (c ∷ cs)) key =
    if is_one_of idempotent_methods (map_codes upper (c ∷ cs)) then true else key

pub record RetryOptions : Type 0 where
  pub max_attempts : ℕ
  pub initial_delay_ms : ℕ
  pub max_delay_ms : ℕ
  pub factor : ℕ
  pub jitter : Bool
  pub method : Option (List ℕ)
  pub has_key : Bool

pub data Attempt (A E : Type 0) : Type 0 where
  value : A → Attempt A E
  failure : E → Attempt A E

pub data RetryResult (A E : Type 0) : Type 0 where
  returned : A → RetryResult A E
  threw : E → RetryResult A E
  aborted : RetryResult A E

-- What a run leaves behind: its result, how often `fn` was called, and the waits, the last first.
pub record Run (A E : Type 0) : Type 0 where
  pub result : RetryResult A E
  pub calls : ℕ
  pub waits : List ℕ

-- `random` is `Math.random() * x`, rounded down to whole milliseconds.
module _ (random : ℕ → ℕ) where
  unfoldable pub compute_delay : ℕ → RetryOptions → ℕ
  compute_delay attempt o =
      let exponential = min (o.initial_delay_ms * o.factor ^ (attempt - 1)) o.max_delay_ms in
      if o.jitter then random exponential else exponential

  -- The loop with fuel. `attempt` counts the failed calls; `none` means that the fuel ran out.
  -- The signal is asked before each call and after each wait.
  unfoldable pub retry_loop :
      {A E : Type 0} (o : RetryOptions) (is_retryable : E → Bool) (fn : ℕ → Attempt A E)
      (before after : ℕ → Bool)
      → ℕ
      → ℕ
      → List ℕ
      → Option (Run A E)
  unfolding compute_delay is_idempotent
  retry_loop o is_retryable fn before after zero attempt waits = none
  retry_loop o is_retryable fn before after (suc fuel) attempt waits =
      let delay = compute_delay (attempt + 1) o in
      let rest = retry_loop o is_retryable fn before after fuel (attempt + 1) (delay ∷ waits) in
      if before attempt
      then some (record { result = aborted; calls = attempt; waits = waits })
      else elim (fn attempt) [
        | value a ↦ some (record { result = returned a; calls = attempt + 1; waits = waits })
        | failure e ↦
            if not (is_idempotent o.method o.has_key)
              || not (is_retryable e)
              || leb o.max_attempts (attempt + 1)
            then some (record { result = threw e; calls = attempt + 1; waits = waits })
            else if after attempt
            then some (record { result = aborted; calls = attempt + 1; waits = delay ∷ waits })
            else rest
      ]

  -- `withRetry`: the loop makes at most `maxAttempts` rounds, and at least one.
  unfoldable pub with_retry :
      {A E : Type 0} (o : RetryOptions) (is_retryable : E → Bool) (fn : ℕ → Attempt A E)
      (before after : ℕ → Bool)
      → Option (Run A E)
  unfolding retry_loop
  with_retry o is_retryable fn before after =
      retry_loop o is_retryable fn before after (o.max_attempts + 1) 0 []
