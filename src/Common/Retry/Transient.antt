-- ===== src/Common/Retry/Transient.antt =====
-- `isTransientError` of backend/src/common/utils/retry.ts.
use stellar_tipz.Base.{ℕ, ◌≤◌, ◌<◌, ◌≡◌, ◌≢◌, ◌⊎◌, true, false, some, List, [], ◌∷◌, arith}
use stellar_tipz.Base.Text.{String, codes}
use stellar_tipz.Common.Retry.{
  error, is_transient_error, has_any, network_words, is_one_of, map_codes, lower,
}

-- An error that is not named a timeout or an abort, and whose message has no word of a network
-- failure, is retried with any status 408, 429 or from 500 on, and never with another from 400 to
-- 499.
status_decides :
    (name : String) (message : List ℕ) (code : ℕ)
    → is_one_of ("AbortError" ∷ "TimeoutError" ∷ []) (codes name) ≡ false
    → has_any network_words (map_codes lower message) ≡ false
    → ((code ≡ 408) ⊎ (code ≡ 429) ⊎ (500 ≤ code)
        → is_transient_error (error name message (some code)) ≡ true)
      × (400 ≤ code
          → code < 500
          → code ≢ 408
          → code ≢ 429
          → is_transient_error (error name message (some code)) ≡ false)
unfolding is_transient_error
status_decides name message code n w = ground arith

-- Where the message has such a word the status is not asked: the error is retried.
words_decide :
    (name : String) (message : List ℕ) (code : ℕ)
    → has_any network_words (map_codes lower message) ≡ true
    → is_transient_error (error name message (some code)) ≡ true
unfolding is_transient_error
words_decide name message code w = ground arith
