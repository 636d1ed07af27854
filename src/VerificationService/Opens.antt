-- ===== src/VerificationService/Opens.antt =====
-- When a token of a verification session opens a booking.
use vapivoiceassistant.Prelude.{
  ℕ, ◌<◌, String, ◌≡◌, refl, ◌∙◌, ap, subst, Bool, true, false, ◌&&◌, Option, none, some, List,
  ◌==◌, arith, find, change, changed, find-change, eq_refl, eq_iff, ◌+◌, Bool-cases, inl, inr,
}
use vapivoiceassistant.Errors.{Result, ok, err, pure}
use vapivoiceassistant.Actions.{◌>>◌}
use vapivoiceassistant.Database.Rows.{find_holds}
use vapivoiceassistant.Models.{Booking}
use vapivoiceassistant.RateLimiter.{BackoffLockout}
use vapivoiceassistant.RateLimiter.Attempts.{note_attempt, is_open}
use vapivoiceassistant.Verification.{
  verification_pending, verified, VerificationSessionState, SubmitResult, submitted, session_error,
  is_usable, is_verified, submit_factor_result, scoped_to, effective_status,
}
use vapivoiceassistant.VerificationService.{
  VerificationSession, VerificationWorld, verify, to_state, scored, get_by_token_hash, on_limits,
  lock_key, write_back, submit_found, submit, check_found, check,
}

-- A call whose value is replaced leaves the state that it leaves.
replaced_state :
    {A B : Type 0} (b : B) (x : Result A × VerificationWorld) (v : VerificationWorld)
    → (((λ _. x) >> pure b) v).1 ≡ x.1
replaced_state b (ok a, v') v = refl
replaced_state b (err e, v') v = refl

hash_of_found :
    (token_hash : String) (rs : List VerificationSession) (r : VerificationSession)
    → get_by_token_hash token_hash rs ≡ some r
    → r.token_hash ≡ token_hash
unfolding get_by_token_hash
hash_of_found token_hash rs r found =
    (eq_iff r.token_hash token_hash).0 (find_holds (λ q. q.token_hash == token_hash) rs found)

-- A match in time verifies the session, and a miss does not.
match_verifies :
    (now : ℕ) (s : VerificationSessionState)
    → s.status ≡ verification_pending
    → now < s.expires_at
    → submit_factor_result true now s
      ≡ submitted
          (record s { status = verified; attempts = s.attempts + 1; verified_at = some now })
unfolding submit_factor_result effective_status
match_verifies now s waits early = rw waits (ground arith)

miss_is_not_verified :
    (now : ℕ) (s t : VerificationSessionState)
    → submit_factor_result false now s ≡ submitted t
    → is_verified t.status ≡ false
unfolding submit_factor_result
miss_is_not_verified now s t e = ground arith

-- What is returned of a submission that verifies.
written_back :
    (hash_token : String → String) (limiter : Option BackoffLockout) (r : VerificationSession)
    (now : ℕ) (s : VerificationSessionState) (w : VerificationWorld)
    → (write_back hash_token limiter r true now (submitted s) w).0 ≡ ok (scored s r)
written_back hash_token none r now s w = refl
written_back hash_token (some b) r now s w = refl

module _ (hash_token : String → String) (limiter : Option BackoffLockout) (now : ℕ)
    (raw_token : String) (booking : Booking) (email_or_phone last_name : Option String)
    (w : VerificationWorld) where
  -- What a submission leaves in the table, once the session has been found.
  write_back-sessions :
      (r : VerificationSession) (matched : Bool) (s : VerificationSessionState)
      → (write_back hash_token limiter r matched now (submitted s) w).1.sessions
        ≡ change (λ q. q.id == r.id) (scored s) w.sessions
  write_back-sessions r matched s =
      let stored = record w { sessions = change (λ q. q.id == r.id) (scored s) w.sessions } in
      ap (λ v. v.sessions)
        (replaced_state (scored s r)
          (on_limits (note_attempt limiter (lock_key r) matched now) stored) stored)

  -- The session that the token finds after a submission.
  found_after :
      (r : VerificationSession) (matched : Bool) (s : VerificationSessionState)
      (token_hash : String)
      → get_by_token_hash token_hash
          (write_back hash_token limiter r matched now (submitted s) w).1.sessions
        ≡ changed (λ q. q.id == r.id) (scored s) (get_by_token_hash token_hash w.sessions)
  unfolding get_by_token_hash scored
  found_after r matched s token_hash =
      ap (find (λ q. q.token_hash == token_hash)) (write_back-sessions r matched s)
      ∙ find-change (λ q. q.token_hash == token_hash) (λ q. q.id == r.id) (scored s) w.sessions
          (λ q. refl)

  submit_step :
      (r : VerificationSession)
      → get_by_token_hash (hash_token raw_token) w.sessions ≡ some r
      → is_open limiter (lock_key r) now w.limits ≡ true
      → submit hash_token limiter now raw_token booking email_or_phone last_name w ≡ (
          let matched = verify booking email_or_phone last_name in
          write_back hash_token limiter r matched now
            (submit_factor_result matched now (to_state r))
            w)
  unfolding submit
  submit_step r found free =
      let own = hash_of_found (hash_token raw_token) w.sessions r found in
      rw (found, own, eq_refl (hash_token raw_token), free) refl

  pub submit-verified :
      (r : VerificationSession)
      → get_by_token_hash (hash_token raw_token) w.sessions ≡ some r
      → r.status ≡ verification_pending
      → now < r.expires_at
      → is_open limiter (lock_key r) now w.limits ≡ true
      → verify booking email_or_phone last_name ≡ true
      → (submit hash_token limiter now raw_token booking email_or_phone last_name w).0
        ≡ ok (record r { status = verified; attempts = r.attempts + 1; verified_at = some now })
  unfolding scored to_state
  submit-verified r found waits early free matched =
      rw (submit_step r found free, matched, match_verifies now (to_state r) waits early)
        (written_back hash_token limiter r now
          (record (to_state r) {
            status = verified;
            attempts = r.attempts + 1;
            verified_at = some now;
          })
          w)

  -- What the token of a session opens after its row has been written.
  check_after :
      (r : VerificationSession) (matched : Bool) (s : VerificationSessionState) (later : ℕ)
      (booking_id purpose : String)
      → get_by_token_hash (hash_token raw_token) w.sessions ≡ some r
      → check hash_token later raw_token booking_id purpose
          (write_back hash_token limiter r matched now (submitted s) w).1
        ≡ (is_usable (to_state (scored s r)) later && scoped_to (to_state r) booking_id purpose)
  unfolding check scored to_state scoped_to
  check_after r matched s later booking_id purpose found =
      let own = hash_of_found (hash_token raw_token) w.sessions r found in
      rw
        (
          found_after r matched s (hash_token raw_token),
          found,
          eq_refl r.id,
          own,
          eq_refl (hash_token raw_token),
        )
        refl

  -- A token's session waits, it is not locked, and the factors are those of some booking. After the
  -- submission the token opens the booking of its session, whether or not that is the booking whose
  -- factors were given.
  pub submit-check :
      (r : VerificationSession)
      → get_by_token_hash (hash_token raw_token) w.sessions ≡ some r
      → r.status ≡ verification_pending
      → now < r.expires_at
      → is_open limiter (lock_key r) now w.limits ≡ true
      → verify booking email_or_phone last_name ≡ true
      → check hash_token now raw_token r.booking_id r.purpose
          (submit hash_token limiter now raw_token booking email_or_phone last_name w).1
        ≡ true
  unfolding scored to_state is_usable scoped_to
  submit-check r found waits early free matched =
      rw
        (
          submit_step r found free,
          matched,
          match_verifies now (to_state r) waits early,
          check_after r true
              (record (to_state r) {
                status = verified;
                attempts = r.attempts + 1;
                verified_at = some now;
              })
              now r.booking_id r.purpose found,
          eq_refl r.booking_id,
          eq_refl r.purpose,
        )
        (ground arith)

  miss_found :
      (r : VerificationSession) (t : VerificationSessionState) (other : String) (later : ℕ)
      (booking_id purpose : String) (o : Option VerificationSession)
      → is_verified t.status ≡ false
      → check_found hash_token later other booking_id purpose
          (changed (λ q. q.id == r.id) (scored t) o)
        ≡ true
      → check_found hash_token later other booking_id purpose o ≡ true
  unfolding scored to_state is_usable
  miss_found r t other later booking_id purpose none shut h = h
  miss_found r t other later booking_id purpose (some q) shut h = ground arith

  miss_stored :
      (r : VerificationSession) (o : SubmitResult VerificationSessionState) (other : String)
      (later : ℕ) (booking_id purpose : String)
      → submit_factor_result false now (to_state r) ≡ o
      → check hash_token later other booking_id purpose
          (write_back hash_token limiter r false now o w).1
        ≡ true
      → check hash_token later other booking_id purpose w ≡ true
  unfolding check
  miss_stored r (session_error _) other later booking_id purpose e h = h
  miss_stored r (submitted t) other later booking_id purpose e h =
      let shut = miss_is_not_verified now (to_state r) t e in
      miss_found r t other later booking_id purpose
        (get_by_token_hash (hash_token other) w.sessions) shut
        (subst (λ o. check_found hash_token later other booking_id purpose o ≡ true)
          (found_after r false t (hash_token other)) h)

  miss_submitted :
      (o : Option VerificationSession) (other : String) (later : ℕ) (booking_id purpose : String)
      → check hash_token later other booking_id purpose
          (submit_found hash_token limiter raw_token false now o w).1
        ≡ true
      → check hash_token later other booking_id purpose w ≡ true
  miss_submitted none other later booking_id purpose h = h
  miss_submitted (some q) other later booking_id purpose h =
      elim (Bool-cases (hash_token raw_token == q.token_hash)) [
        | inr wrong ↦ rw wrong at h
        | inl right ↦ elim (Bool-cases (is_open limiter (lock_key q) now w.limits)) [
          | inr locked ↦ rw (right, locked) at h
          | inl free ↦
              miss_stored q (submit_factor_result false now (to_state q)) other later booking_id
                purpose refl (rw (right, free) at h)
        ]
      ]

  -- Factors that are not those of the booking open nothing: whatever a token opens after such a
  -- submission, at any time, it opened before it.
  pub check-submit_missed :
      (other : String) (later : ℕ) (booking_id purpose : String)
      → verify booking email_or_phone last_name ≡ false
      → check hash_token later other booking_id purpose
          (submit hash_token limiter now raw_token booking email_or_phone last_name w).1
        ≡ true
      → check hash_token later other booking_id purpose w ≡ true
  unfolding submit
  check-submit_missed other later booking_id purpose missed h =
      miss_submitted (get_by_token_hash (hash_token raw_token) w.sessions) other later booking_id
        purpose (rw missed at h)
