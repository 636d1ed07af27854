-- ===== src/RateLimiter.antt =====
-- Rate limiting and login backoff: apps/api/app/core/security/rate_limiter.py. Times are natural
-- numbers of one unit; the source's floats are exact on the whole seconds that it is given.
pub mod Window
pub mod Lockout
pub mod Attempts
use vapivoiceassistant.Prelude.{
  ℕ, ◌+◌, ◌-◌, ◌*◌, ◌^◌, min, String, Bool, true, false, Option, none, some, List, [], ◌∷◌, ltb,
  leb, if◌then◌else◌,
}
use vapivoiceassistant.Prelude.Dict.{Dict, lookup, insert, remove}

pub record FailureState : Type 0 where
  pub consecutive_failures : ℕ
  pub locked_until : Option ℕ

pub record InMemoryRateLimitStore : Type 0 where
  pub windows : Dict (ℕ × ℕ)
  pub failures : Dict FailureState

abbrev or_fresh : ℕ → Option (ℕ × ℕ) → ℕ × ℕ
or_fresh now none = (0, now)
or_fresh now (some w) = w

unfoldable pub get_window : String → ℕ → InMemoryRateLimitStore → ℕ × ℕ
get_window key now s = or_fresh now (lookup key s.windows)

-- The count and the start of the window after one more request. `now - started_at >= window` is
-- written without the difference, which may be negative.
unfoldable pub advance_window : ℕ → ℕ → ℕ × ℕ → ℕ × ℕ
advance_window now window_seconds (count, started_at) =
    if leb (started_at + window_seconds) now then (1, now) else (count + 1, started_at)

unfoldable pub increment_window :
    String → ℕ → ℕ → InMemoryRateLimitStore → (ℕ × ℕ) × InMemoryRateLimitStore
unfolding get_window advance_window
increment_window key now window_seconds s =
    let w = advance_window now window_seconds (get_window key now s) in
    (w, record s { windows = insert key w s.windows })

unfoldable pub get_failure_state : String → InMemoryRateLimitStore → Option FailureState
get_failure_state key s = lookup key s.failures

unfoldable pub set_failure_state :
    String → FailureState → InMemoryRateLimitStore → InMemoryRateLimitStore
set_failure_state key state s = record s { failures = insert key state s.failures }

unfoldable pub clear_failure_state : String → InMemoryRateLimitStore → InMemoryRateLimitStore
clear_failure_state key s = record s { failures = remove key s.failures }

pub record RateLimitResult : Type 0 where
  pub allowed : Bool
  pub remaining : ℕ
  pub retry_after_seconds : ℕ

pub record FixedWindowRateLimiter : Type 0 where
  pub limit : ℕ
  pub window_seconds : ℕ

-- The verdict on a window that already counts this request. `max(0, window - (now - started))` is
-- the truncated difference.
unfoldable pub verdict : FixedWindowRateLimiter → ℕ → ℕ × ℕ → RateLimitResult
verdict l now (count, started_at) =
    if ltb l.limit count
    then record {
      allowed = false;
      remaining = 0;
      retry_after_seconds = started_at + l.window_seconds - now;
    }
    else record { allowed = true; remaining = l.limit - count; retry_after_seconds = 0 }

unfoldable pub check :
    FixedWindowRateLimiter
    → String
    → ℕ
    → InMemoryRateLimitStore
    → RateLimitResult × InMemoryRateLimitStore
unfolding increment_window verdict
check l key now s =
    let (w, s') = increment_window key now l.window_seconds s in (verdict l now w, s')

abbrev pub rate_limit_profiles : Dict (ℕ × ℕ)
rate_limit_profiles =
    ("login", (10, 60))
    ∷ ("register", (5, 60 * 60))
    ∷ ("password_reset_request", (5, 60 * 60))
    ∷ ("booking_lookup", (10, 60))
    ∷ ("booking_verification", (5, 60 * 10))
    ∷ ("vapi_webhook", (120, 60))
    ∷ ("vapi_tool", (60, 60))
    ∷ ("admin_login", (5, 60))
    ∷ []

-- `none` is the `KeyError` of an unknown profile.
unfoldable pub build_rate_limiter : String → Option FixedWindowRateLimiter
build_rate_limiter profile = elim (lookup profile rate_limit_profiles) [
  | none ↦ none
  | some (limit, window) ↦ some (record { limit = limit; window_seconds = window })
]

pub record BackoffLockout : Type 0 where
  pub threshold : ℕ
  pub base_backoff_seconds : ℕ
  pub max_backoff_seconds : ℕ

abbrev pub default_lockout : BackoffLockout
default_lockout = record { threshold = 5; base_backoff_seconds = 2; max_backoff_seconds = 15 * 60 }

abbrev pub locked_until_of : Option FailureState → Option ℕ
locked_until_of none = none
locked_until_of (some f) = f.locked_until

abbrev unlocked : BackoffLockout → RateLimitResult
unlocked b = record { allowed = true; remaining = b.threshold; retry_after_seconds = 0 }

unfoldable pub lock_verdict : BackoffLockout → ℕ → Option ℕ → RateLimitResult
lock_verdict b now none = unlocked b
lock_verdict b now (some until) =
    if leb until now
    then unlocked b
    else record { allowed = false; remaining = 0; retry_after_seconds = until - now }

unfoldable pub is_locked : BackoffLockout → String → ℕ → InMemoryRateLimitStore → RateLimitResult
unfolding get_failure_state
is_locked b key now s = lock_verdict b now (locked_until_of (get_failure_state key s))

pub data Recorded : Type 0 where
  recorded : FailureState → Recorded
  -- Python's `OverflowError`
  overflow_error : Recorded

-- A float times an int above the largest float raises; 2 ** 1024 is the first power that does.
abbrev pub float_exponent_limit : ℕ
float_exponent_limit = 1024

abbrev pub or_no_failures : Option FailureState → FailureState
or_no_failures none = record { consecutive_failures = 0; locked_until = none }
or_no_failures (some f) = f

unfoldable pub backoff : BackoffLockout → ℕ → ℕ
backoff b exponent = min (b.base_backoff_seconds * 2 ^ exponent) b.max_backoff_seconds

-- What `record_failure` makes of the state and returns. `state` is the object that the store holds,
-- so the increment is kept when the power overflows.
unfoldable pub count_failure : BackoffLockout → ℕ → FailureState → Recorded × FailureState
count_failure b now state =
    let count = state.consecutive_failures + 1 in
    let counted = record state { consecutive_failures = count } in
    let locked = record counted { locked_until = some (now + backoff b (count - b.threshold)) } in
    if ltb count b.threshold
    then (recorded counted, counted)
    else if leb float_exponent_limit (count - b.threshold)
    then (overflow_error, counted)
    else (recorded locked, locked)

unfoldable pub record_failure :
    BackoffLockout → String → ℕ → InMemoryRateLimitStore → Recorded × InMemoryRateLimitStore
unfolding get_failure_state set_failure_state
record_failure b key now s =
    let (r, state) = count_failure b now (or_no_failures (get_failure_state key s)) in
    (r, set_failure_state key state s)

unfoldable pub record_success : String → InMemoryRateLimitStore → InMemoryRateLimitStore
unfolding clear_failure_state
record_success key s = clear_failure_state key s
