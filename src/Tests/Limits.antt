-- ===== src/Tests/Limits.antt =====
-- Witnesses for the rate limiter, the backoff and the verification sessions.
use vapivoiceassistant.Prelude.{ℕ, ◌*◌, ◌≤◌, ◌≡◌, refl, true, false, none, [], ◌∷◌, arith}
use vapivoiceassistant.Prelude.Dict.{lookup}
use vapivoiceassistant.RateLimiter.{
  InMemoryRateLimitStore, FixedWindowRateLimiter, BackoffLockout, is_locked,
}
use vapivoiceassistant.RateLimiter.Window.{allowed_count, allowed_count_burst}
use vapivoiceassistant.RateLimiter.Lockout.{failures_of, record_failures, lockout_lost, LocksEndBy}
use vapivoiceassistant.Verification.{
  VerificationSessionState, start, is_usable, submit_factor_result,
}
use vapivoiceassistant.Verification.Sessions.{submit, submit_all, IsBounded, guesses_run_out}

abbrev limiter : FixedWindowRateLimiter
limiter = record { limit = 2; window_seconds = 60 }

abbrev empty_store : InMemoryRateLimitStore
empty_store = record { windows = []; failures = [] }

no_window : lookup "ip" empty_store.windows ≡ none
unfolding lookup
no_window = refl

allowed_count_burst_example : allowed_count limiter "ip" (50 ∷ 70 ∷ 80 ∷ []) empty_store ≤ 2 * 2
allowed_count_burst_example =
    allowed_count_burst limiter "ip" 50 (50 ∷ 70 ∷ 80 ∷ []) empty_store
      ((omega arith, omega arith), ((omega arith, omega arith), ((omega arith, omega arith), tt)))

abbrev lockout : BackoffLockout
lockout = record { threshold = 3; base_backoff_seconds = 30; max_backoff_seconds = 900 }

abbrev failed_store : ℕ → InMemoryRateLimitStore
failed_store n = record {
  windows = [];
  failures = ("ada", record { consecutive_failures = n; locked_until = none }) ∷ [];
}

counted_2 : failures_of "ada" (failed_store 2) ≡ 2
unfolding lookup
counted_2 = refl

counted_1026 : failures_of "ada" (failed_store 1026) ≡ 1026
unfolding lookup
counted_1026 = refl

lockout_lost_example :
    is_locked lockout "ada" 7 (record_failures lockout "ada" (5 ∷ 6 ∷ []) (failed_store 1026))
    ≡ is_locked lockout "ada" 7 (failed_store 1026)
lockout_lost_example =
    lockout_lost lockout "ada" (5 ∷ 6 ∷ []) 7 (failed_store 1026) (omega (arith, counted_1026))

nothing_locked : LocksEndBy 2000 empty_store
unfolding lookup
nothing_locked k u e = absurd (cc e)

abbrev session : VerificationSessionState
session = start "s1" "b1" "cancel_booking" none 900 2 100

session-IsBounded : IsBounded session
unfolding start
session-IsBounded = omega arith

matched : is_usable (submit_all ((true, 110) ∷ []) session) 120 ≡ true
unfolding start is_usable submit_all submit submit_factor_result
matched = refl

guesses_run_out_example :
    is_usable
      (submit_all ((true, 130) ∷ []) (submit_all ((false, 110) ∷ (false, 120) ∷ []) session))
      140
    ≡ false
guesses_run_out_example =
    guesses_run_out "s1" "b1" "cancel_booking" none 900 2 100 ((false, 110) ∷ (false, 120) ∷ [])
      ((true, 130) ∷ []) 140 ((refl, omega arith), ((refl, omega arith), tt)) (omega arith)
      (omega arith)
