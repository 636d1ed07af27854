-- ===== src/RateLimiter/Lockout.antt =====
-- The backoff after repeated failures in rate_limiter.py: when a key is locked, for how long, and
-- where the exponent stops the lock.
use vapivoiceassistant.Prelude.{
  ℕ, ◌+◌, ◌-◌, ◌≤◌, ◌<◌, String, ◌≡◌, ◌≢◌, some, List, [], ◌∷◌, arith, eq_iff, eq_refl, refl, subst,
  ◌∙◌, length, leb,
}
use vapivoiceassistant.Prelude.Dict.{lookup, lookup-insert, lookup-remove}
use vapivoiceassistant.RateLimiter.{
  InMemoryRateLimitStore, BackoffLockout, FailureState, overflow_error, count_failure, lock_verdict,
  is_locked, record_failure, record_success, backoff, float_exponent_limit, or_no_failures,
}

-- What the store remembers of a key.
abbrev pub state_of : String → InMemoryRateLimitStore → FailureState
state_of k s = or_no_failures (lookup k s.failures)

abbrev pub failures_of : String → InMemoryRateLimitStore → ℕ
failures_of k s = (state_of k s).consecutive_failures

module _ (b : BackoffLockout) (k : String) (now : ℕ) (s : InMemoryRateLimitStore) where
  stored :
      lookup k (record_failure b k now s).1.failures ≡ some (count_failure b now (state_of k s)).1
  unfolding record_failure
  stored = simp (lookup-insert, eq_refl)

  -- A failure is counted whether or not its power overflows.
  pub failures_of-record_failure : failures_of k (record_failure b k now s).1 ≡ failures_of k s + 1
  unfolding count_failure
  failures_of-record_failure = ground (arith, stored)

  is_locked_after :
      (t : ℕ)
      → is_locked b k t (record_failure b k now s).1
        ≡ lock_verdict b t (count_failure b now (state_of k s)).1.locked_until
  unfolding is_locked
  is_locked_after t = ground (arith, stored)

  -- From the threshold on, a failure locks its key for the backoff and no longer.
  pub record_failure_locks :
      (t : ℕ)
      → b.threshold ≤ failures_of k s + 1
      → failures_of k s + 1 < b.threshold + float_exponent_limit
      → (is_locked b k t (record_failure b k now s).1).allowed
        ≡ leb (now + backoff b (failures_of k s + 1 - b.threshold)) t
  unfolding count_failure lock_verdict
  record_failure_locks t h1 h2 = rw is_locked_after (ground arith)

  -- Below the threshold a failure changes no lock.
  pub record_failure_below_threshold :
      (t : ℕ)
      → failures_of k s + 1 < b.threshold
      → is_locked b k t (record_failure b k now s).1 ≡ is_locked b k t s
  unfolding count_failure is_locked lock_verdict
  record_failure_below_threshold t h = rw is_locked_after (ground arith)

  -- A failure of one key leaves every other key as it was.
  pub record_failure_others :
      (j : String) → k ≢ j → lookup j (record_failure b k now s).1.failures ≡ lookup j s.failures
  unfolding record_failure
  record_failure_others j h = rw lookup-insert (ground (arith, eq_iff k j))

  -- From 1024 failures past the threshold on, a failure raises, and locks nothing.
  pub record_failure_overflows :
      b.threshold + float_exponent_limit ≤ failures_of k s + 1
      → ((record_failure b k now s).0 ≡ overflow_error)
        × ((t : ℕ) → is_locked b k t (record_failure b k now s).1 ≡ is_locked b k t s)
  unfolding record_failure count_failure is_locked lock_verdict
  record_failure_overflows h = (ground arith, λ t. rw is_locked_after (ground arith))

-- A run of failures of one key, at the given times.
pub record_failures :
    BackoffLockout → String → List ℕ → InMemoryRateLimitStore → InMemoryRateLimitStore
record_failures b k [] s = s
record_failures b k (now ∷ ts) s = record_failures b k ts (record_failure b k now s).1

module _ (b : BackoffLockout) (k : String) where
  failures_of-record_failures :
      (ts : List ℕ) (s : InMemoryRateLimitStore)
      → failures_of k (record_failures b k ts s) ≡ failures_of k s + length ts
  unfolding record_failures
  failures_of-record_failures [] s = omega arith
  failures_of-record_failures (t ∷ ts) s = omega (
    arith,
    failures_of-record_failures ts (record_failure b k t s).1,
    failures_of-record_failure b k t s,
  )

  cleared : (s : InMemoryRateLimitStore) → failures_of k (record_success k s) ≡ 0
  unfolding record_success
  cleared s = ground (arith, lookup-remove {V = FailureState} k k s.failures, eq_refl k)

  -- The failures since the last success are counted: the next one, number n + 1, locks the key for
  -- the base time doubled once for each failure past the threshold, up to the maximum.
  pub record_success_restarts :
      (ts : List ℕ) (now t : ℕ) (s : InMemoryRateLimitStore)
      → b.threshold ≤ length ts + 1
      → length ts + 1 < b.threshold + float_exponent_limit
      → let s' = record_failures b k ts (record_success k s) in
        (is_locked b k t (record_failure b k now s').1).allowed
        ≡ leb (now + backoff b (length ts + 1 - b.threshold)) t
  unfolding record_success
  record_success_restarts ts now t s h1 h2 =
      let s' = record_failures b k ts (record_success k s) in
      let n : failures_of k s' ≡ length ts =
        omega (arith, failures_of-record_failures ts (record_success k s), cleared s) in
      subst
        (λ n.
          (is_locked b k t (record_failure b k now s').1).allowed
          ≡ leb (now + backoff b (n + 1 - b.threshold)) t)
        n (record_failure_locks b k now s' t (omega arith) (omega arith))

  -- Once 1024 failures past the threshold are reached and the last lock is over, no further failure
  -- locks the key again, however many follow.
  pub lockout_lost :
      (ts : List ℕ) (t : ℕ) (s : InMemoryRateLimitStore)
      → b.threshold + float_exponent_limit ≤ failures_of k s + 1
      → is_locked b k t (record_failures b k ts s) ≡ is_locked b k t s
  unfolding record_failures
  lockout_lost [] t s h = refl
  lockout_lost (u ∷ ts) t s h =
      lockout_lost ts t (record_failure b k u s).1
        (omega (arith, failures_of-record_failure b k u s))
      ∙ (record_failure_overflows b k u s h).1 t

-- No lock of the store ends after the given time.
abbrev pub LocksEndBy : ℕ → InMemoryRateLimitStore → Type 0
LocksEndBy end s = (k : String) (u : ℕ) → (state_of k s).locked_until ≡ some u → u ≤ end

count_failure_end :
    (b : BackoffLockout) (now end u : ℕ) (f : FailureState)
    → (f.locked_until ≡ some u → u ≤ end)
    → now + b.max_backoff_seconds ≤ end
    → (count_failure b now f).1.locked_until ≡ some u
    → u ≤ end
unfolding count_failure backoff
count_failure_end b now end u f h le = ground arith

-- A lock is never permanent: a failure leaves every lock to end by the maximum after it, if the
-- locks before it did.
pub record_failure-LocksEndBy :
    (b : BackoffLockout) (k : String) (now end : ℕ) (s : InMemoryRateLimitStore)
    → LocksEndBy end s
    → now + b.max_backoff_seconds ≤ end
    → LocksEndBy end (record_failure b k now s).1
unfolding record_failure
record_failure-LocksEndBy b k now end s h le j u =
    rw lookup-insert
      (ground (arith, h k u, h j u, eq_iff k j, count_failure_end b now end u (state_of k s)))
