-- ===== src/RateLimiter/Window.antt =====
-- How many requests the fixed-window limiter of rate_limiter.py lets through.
use vapivoiceassistant.Prelude.{
  ℕ, suc, ◌+◌, ◌-◌, ◌*◌, ◌≤◌, ◌<◌, min, String, ◌≡◌, none, some, List, [], ◌∷◌, arith, All, leb,
  if◌then◌else◌, eq_refl, Option-cases, Bool-cases, subst, inl, inr, ◌==◌, length,
}
use vapivoiceassistant.Prelude.Dict.{lookup, lookup-insert}
use vapivoiceassistant.RateLimiter.{
  InMemoryRateLimitStore, FixedWindowRateLimiter, get_window, advance_window, check,
}

-- The windows of the store after a check: that of the key is advanced, the others stay.
pub get_window-check :
    (l : FixedWindowRateLimiter) (k j : String) (now t : ℕ) (s : InMemoryRateLimitStore)
    → get_window j t (check l k now s).1 ≡ (
        if k == j
        then advance_window now l.window_seconds (get_window k now s)
        else get_window j t s)
unfolding check get_window
get_window-check l k j now t s =
    ground (
      arith,
      lookup-insert k j (advance_window now l.window_seconds (get_window k now s)) s.windows,
    )

-- The requests that are let through when one key is checked at the given times, in turn.
pub allowed_count : FixedWindowRateLimiter → String → List ℕ → InMemoryRateLimitStore → ℕ
allowed_count l k [] s = 0
allowed_count l k (now ∷ ts) s =
    let (r, s') = check l k now s in
    let rest = allowed_count l k ts s' in if r.allowed then suc rest else rest

-- What a check of a key does to its window: it reports whether the new count fits, and stores it.
record Advances (l : FixedWindowRateLimiter) (k : String) (now : ℕ) (s : InMemoryRateLimitStore)
    (w : ℕ × ℕ) : Type 0 where
  allowed : (check l k now s).0.allowed ≡ leb w.0 l.limit
  stored : lookup k (check l k now s).1.windows ≡ some w

advances :
    (l : FixedWindowRateLimiter) (k : String) (now : ℕ) (s : InMemoryRateLimitStore)
    → Advances l k now s (advance_window now l.window_seconds (get_window k now s))
unfolding check
advances l k now s = record { allowed = ground arith; stored = simp (lookup-insert, eq_refl) }

module _ (l : FixedWindowRateLimiter) (k : String) (now : ℕ) (s : InMemoryRateLimitStore) where
  within :
      (c start : ℕ)
      → lookup k s.windows ≡ some (c, start)
      → now < start + l.window_seconds
      → Advances l k now s (c + 1, start)
  unfolding get_window advance_window
  within c start e h = subst (Advances l k now s) (ground arith) (advances l k now s)

  ended :
      (c start : ℕ)
      → lookup k s.windows ≡ some (c, start)
      → start + l.window_seconds ≤ now
      → Advances l k now s (1, now)
  unfolding get_window advance_window
  ended c start e h = subst (Advances l k now s) (ground arith) (advances l k now s)

  fresh : lookup k s.windows ≡ none → Advances l k now s (1, now)
  unfolding get_window advance_window
  fresh e = subst (Advances l k now s) (ground arith) (advances l k now s)

module _ (l : FixedWindowRateLimiter) (k : String) where
  -- While no window ends, exactly what the limit leaves is let through.
  allowed_count_same_window :
      (ts : List ℕ) (c start : ℕ) (s : InMemoryRateLimitStore)
      → lookup k s.windows ≡ some (c, start)
      → All (λ t. t < start + l.window_seconds) ts
      → allowed_count l k ts s ≡ min (length ts) (l.limit - c)
  unfolding allowed_count
  allowed_count_same_window [] c start s e h = omega arith
  allowed_count_same_window (t ∷ ts) c start s e h =
      let a = within l k t s c start e h.0 in
      ground (
        arith,
        a.allowed,
        allowed_count_same_window ts (c + 1) start (check l k t s).1 a.stored h.1,
      )

  -- The first request of a key opens a window. Of all requests before its end, the first `limit`
  -- are let through, and no other.
  pub allowed_count_first_window :
      (t : ℕ) (ts : List ℕ) (s : InMemoryRateLimitStore)
      → lookup k s.windows ≡ none
      → All (λ u. u < t + l.window_seconds) ts
      → allowed_count l k (t ∷ ts) s ≡ min (length (t ∷ ts)) l.limit
  unfolding allowed_count
  allowed_count_first_window t ts s e h =
      let a = fresh l k t s e in
      ground (arith, a.allowed, allowed_count_same_window ts 1 t (check l k t s).1 a.stored h)

  -- Requests before the end of an interval come before the end of a window that opens inside it.
  All-later :
      (a t : ℕ) (ts : List ℕ)
      → a ≤ t
      → All (λ u. (a ≤ u) × (u < a + l.window_seconds)) ts
      → All (λ u. u < t + l.window_seconds) ts
  All-later a t [] le h = tt
  All-later a t (u ∷ ts) le h = (omega arith, All-later a t ts le h.1)

  burst_from :
      (a : ℕ) (ts : List ℕ) (c start : ℕ) (s : InMemoryRateLimitStore)
      → lookup k s.windows ≡ some (c, start)
      → All (λ t. (a ≤ t) × (t < a + l.window_seconds)) ts
      → allowed_count l k ts s ≤ l.limit - c + l.limit
  unfolding allowed_count
  burst_from a [] c start s e h = omega arith
  burst_from a (t ∷ ts) c start s e h = elim (Bool-cases (leb (start + l.window_seconds) t)) [
    | inl over ↦
        let d = ended l k t s c start e (ground arith) in
        ground (
          arith,
          d.allowed,
          allowed_count_same_window ts 1 t (check l k t s).1 d.stored (All-later a t ts h.0.0 h.1),
        )
    | inr open_still ↦
        let d = within l k t s c start e (ground arith) in
        ground (arith, d.allowed, burst_from a ts (c + 1) start (check l k t s).1 d.stored h.1)
  ]

  burst_fresh :
      (a : ℕ) (ts : List ℕ) (s : InMemoryRateLimitStore)
      → lookup k s.windows ≡ none
      → All (λ t. (a ≤ t) × (t < a + l.window_seconds)) ts
      → allowed_count l k ts s ≤ 2 * l.limit
  unfolding allowed_count
  burst_fresh a [] s e h = omega arith
  burst_fresh a (t ∷ ts) s e h =
      omega (arith, allowed_count_first_window t ts s e (All-later a t ts h.0.0 h.1))

  -- Whatever the store remembers of the key, in any interval as long as a window at most twice the
  -- limit is let through, in whatever order the clock gives the times.
  pub allowed_count_burst :
      (a : ℕ) (ts : List ℕ) (s : InMemoryRateLimitStore)
      → All (λ t. (a ≤ t) × (t < a + l.window_seconds)) ts
      → allowed_count l k ts s ≤ 2 * l.limit
  allowed_count_burst a ts s h = elim (Option-cases (lookup k s.windows)) [
    | inl unseen ↦ burst_fresh a ts s unseen h
    | inr ((c, start), e) ↦ omega (arith, burst_from a ts c start s e h)
  ]
