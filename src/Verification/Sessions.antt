-- ===== src/Verification/Sessions.antt =====
-- How often a session of verification.py can be tried, and when it opens a booking.
use vapivoiceassistant.Prelude.{
  ℕ, ◌+◌, ◌≤◌, ◌<◌, max, String, ◌≡◌, refl, ap, Bool, true, false, Option, List, [], ◌∷◌, arith,
  length, Bool-cases, inl, inr, All, any, if◌then◌else◌, ltb, leb, ◌||◌, ◌&&◌,
}
use vapivoiceassistant.Verification.{
  VerificationStatus, unverified, verification_pending, failed, SubmitResult, submitted,
  session_error, VerificationSessionState, start, is_usable, submit_factor_result,
}

-- The session that is stored after a submission: an error leaves it as it was.
abbrev after :
    VerificationSessionState → SubmitResult VerificationSessionState → VerificationSessionState
after s (submitted t) = t
after s (session_error _) = s

unfoldable pub submit : Bool × ℕ → VerificationSessionState → VerificationSessionState
submit (matched, now) s = after s (submit_factor_result matched now s)

-- Submissions in turn, each with whether the factors matched and its time.
unfoldable pub submit_all : List (Bool × ℕ) → VerificationSessionState → VerificationSessionState
submit_all [] s = s
submit_all (x ∷ xs) s = submit_all xs (submit x s)

-- The session is usable only if it was verified, it never takes more attempts than its maximum
-- (or one, which the first submission always gets), and while it waits it has attempts left.
abbrev Attempts : VerificationStatus → ℕ → ℕ → Type 0
Attempts unverified n m = n < max 1 m
Attempts verification_pending n m = n < max 1 m
Attempts _ n m = n ≤ max 1 m

abbrev pub IsBounded : VerificationSessionState → Type 0
IsBounded s = Attempts s.status s.attempts s.max_attempts

submit-IsBounded :
    (x : Bool × ℕ) (s : VerificationSessionState) → IsBounded s → IsBounded (submit x s)
unfolding submit submit_factor_result
submit-IsBounded (m, now) s h = ground arith

-- Whatever is submitted, a session takes at most its maximum of attempts (one, if that is 0), and
-- fewer while it still waits.
pub submit_all-IsBounded :
    (xs : List (Bool × ℕ)) (s : VerificationSessionState)
    → IsBounded s
    → IsBounded (submit_all xs s)
unfolding submit_all
submit_all-IsBounded [] s h = h
submit_all-IsBounded (x ∷ xs) s h = submit_all-IsBounded xs (submit x s) (submit-IsBounded x s h)

-- A submission that may verify: the factors matched, before the session's end.
abbrev pub hits : ℕ → Bool × ℕ → Bool
hits end (matched, now) = matched && ltb now end

expires_at-submit :
    (x : Bool × ℕ) (s : VerificationSessionState) → (submit x s).expires_at ≡ s.expires_at
unfolding submit submit_factor_result
expires_at-submit (m, now) s = ground arith

usable-submit :
    (x : Bool × ℕ) (t : ℕ) (s : VerificationSessionState)
    → is_usable (submit x s) t ≡ true
    → (is_usable s t || hits s.expires_at x) ≡ true
unfolding submit submit_factor_result is_usable
usable-submit (m, now) t s h = ground arith

-- A session opens its booking only after some submission matched before the session's end, if it
-- did not do so from the first.
pub usable_needs_match :
    (xs : List (Bool × ℕ)) (t : ℕ) (s : VerificationSessionState)
    → is_usable (submit_all xs s) t ≡ true
    → (is_usable s t || any (hits s.expires_at) xs) ≡ true
unfolding submit_all
usable_needs_match [] t s h = ground arith
usable_needs_match (x ∷ xs) t s h = ground (
  arith,
  usable_needs_match xs t (submit x s) h,
  usable-submit x t s,
  expires_at-submit x s,
  ap (λ e. any (hits e) xs) (expires_at-submit x s),
)

-- Mismatches before the session's end.
abbrev pub IsMiss : ℕ → Bool × ℕ → Type 0
IsMiss end (matched, now) = (matched ≡ false) × (now < end)

failed-submit :
    (x : Bool × ℕ) (s : VerificationSessionState) → s.status ≡ failed → (submit x s).status ≡ failed
unfolding submit submit_factor_result
failed-submit (m, now) s h = ground arith

failed_stays :
    (xs : List (Bool × ℕ)) (s : VerificationSessionState)
    → s.status ≡ failed
    → (submit_all xs s).status ≡ failed
unfolding submit_all
failed_stays [] s h = h
failed_stays (x ∷ xs) s h = failed_stays xs (submit x s) (failed-submit x s h)

-- A miss fails a waiting session on its last attempt, and otherwise costs it one.
miss :
    (x : Bool × ℕ) (s : VerificationSessionState)
    → s.status ≡ verification_pending
    → IsMiss s.expires_at x
    → submit x s ≡ record s {
      status = if leb s.max_attempts (s.attempts + 1) then failed else verification_pending;
      attempts = s.attempts + 1;
    }
unfolding submit submit_factor_result
miss (m, now) s p h = ground arith

misses_fail :
    (end : ℕ) (xs : List (Bool × ℕ)) (s : VerificationSessionState)
    → s.expires_at ≡ end
    → s.status ≡ verification_pending
    → All (IsMiss end) xs
    → s.max_attempts ≤ s.attempts + length xs
    → 0 < length xs
    → (submit_all xs s).status ≡ failed
unfolding submit_all
misses_fail end [] s e p h le pos = absurd (omega arith)
misses_fail end (x ∷ []) s e p h le pos = ground (arith, miss x s p)
misses_fail end (x ∷ y ∷ xs) s e p h le pos =
    elim (Bool-cases (leb s.max_attempts (s.attempts + 1))) [
      | inl last ↦ failed_stays (y ∷ xs) (submit x s) (ground (arith, miss x s p))
      | inr left ↦
          misses_fail end (y ∷ xs) (submit x s) (ground (arith, miss x s p))
            (ground (arith, miss x s p)) h.1 (ground (arith, miss x s p)) (omega arith)
    ]

-- Guessing runs out: once a new session has taken as many misses as it allows, before its end, it
-- never opens the booking, whatever is submitted after them.
pub guesses_run_out :
    (id booking purpose : String) (call : Option String) (ttl m now : ℕ) (xs ys : List (Bool × ℕ))
    (t : ℕ)
    → All (IsMiss (now + ttl)) xs
    → m ≤ length xs
    → 0 < length xs
    → is_usable (submit_all ys (submit_all xs (start id booking purpose call ttl m now))) t ≡ false
unfolding start is_usable
guesses_run_out id booking purpose call ttl m now xs ys t h le pos =
    let s = start id booking purpose call ttl m now in
    ground (
      arith,
      failed_stays ys (submit_all xs s)
          (misses_fail (now + ttl) xs s refl refl h (omega arith) pos),
    )
