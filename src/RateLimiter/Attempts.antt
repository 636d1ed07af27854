-- ===== src/RateLimiter/Attempts.antt =====
-- How the services use the backoff of rate_limiter.py, if they have been given one.
use vapivoiceassistant.Prelude.{ℕ, String, Bool, true, false, Option, none, some}
use vapivoiceassistant.Errors.{Result, ok, err, Action, arithmetic_error}
use vapivoiceassistant.RateLimiter.{
  InMemoryRateLimitStore, BackoffLockout, Recorded, recorded, overflow_error, is_locked,
  record_failure, record_success,
}

abbrev after_failure :
    Recorded × InMemoryRateLimitStore → Result (Unit {0}) × InMemoryRateLimitStore
after_failure (recorded _, s) = (ok tt, s)
after_failure (overflow_error, s) = (err arithmetic_error, s)

-- `record_success` or `record_failure`, by whether the attempt was right.
abbrev pub note_attempt :
    Option BackoffLockout → String → Bool → ℕ → Action InMemoryRateLimitStore (Unit {0})
note_attempt none key matched now s = (ok tt, s)
note_attempt (some b) key true now s = (ok tt, record_success key s)
note_attempt (some b) key false now s = after_failure (record_failure b key now s)

-- `is_locked(key).allowed`
abbrev pub is_open : Option BackoffLockout → String → ℕ → InMemoryRateLimitStore → Bool
is_open none key now s = true
is_open (some b) key now s = (is_locked b key now s).allowed
