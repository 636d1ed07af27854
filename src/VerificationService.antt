-- ===== src/VerificationService.antt =====
-- `BookingVerificationService` and `VerificationSessionService` of
-- apps/api/app/services/verification_service.py, with the rows of models/verification.py. The
-- SHA-256 of a token (core/security/tokens.py) and the random draw of a token are arguments.
pub mod Opens
use vapivoiceassistant.Prelude.{
  ℕ, ◌+◌, String, Bool, true, false, ◌&&◌, ◌||◌, not, Option, none, some, List, [], ◌∷◌, ◌==◌, any,
  find, change, join, truthy_text, if◌then◌else◌,
}
use vapivoiceassistant.Prelude.Text.{strip, lower_text}
use vapivoiceassistant.Errors.{Result, ok, err, Action, pure, raise, auth_error, integrity_error}
use vapivoiceassistant.Actions.{◌>>=◌, ◌>>◌, raise_when, update}
use vapivoiceassistant.Models.{Booking, BookingPassenger}
use vapivoiceassistant.RateLimiter.{InMemoryRateLimitStore, BackoffLockout}
use vapivoiceassistant.RateLimiter.Attempts.{note_attempt, is_open}
use vapivoiceassistant.Verification.{
  VerificationStatus, verification_pending, SubmitResult, submitted, session_error,
  VerificationSessionState, default_ttl, default_max_attempts, is_usable, submit_factor_result,
  scoped_to,
}

-- A row of the table.
pub record VerificationSession : Type 0 where
  pub id : String
  pub call_id : Option String
  pub booking_id : String
  pub purpose : String
  pub token_hash : String
  pub status : VerificationStatus
  pub attempts : ℕ
  pub expires_at : ℕ
  pub verified_at : Option ℕ
  pub created_at : ℕ

pub record VerificationWorld : Type 0 where
  pub sessions : List VerificationSession
  pub limits : InMemoryRateLimitStore

-- `s.strip().lower()`
unfoldable pub normal : String → String
unfolding strip lower_text
normal s = lower_text (strip s)

abbrev matches_contact : Booking → Option String → Bool
matches_contact booking none = false
matches_contact booking (some candidate) =
    normal candidate == normal booking.contact_email
    || normal candidate == normal booking.contact_phone

abbrev matches_passenger : Booking → Option String → Bool
matches_passenger booking none = false
matches_passenger booking (some name) =
    any (λ p. normal p.last_name == normal name) booking.passengers

-- The contact of the booking, or the last name of a passenger, but for letter case and space around.
unfoldable pub verify : Booking → Option String → Option String → Bool
verify booking email_or_phone last_name =
    matches_contact booking (truthy_text email_or_phone)
    || matches_passenger booking (truthy_text last_name)

unfoldable pub to_state : VerificationSession → VerificationSessionState
to_state r = record {
  id = r.id;
  call_id = r.call_id;
  booking_id = r.booking_id;
  purpose = r.purpose;
  status = r.status;
  attempts = r.attempts;
  max_attempts = default_max_attempts;
  created_at = r.created_at;
  expires_at = r.expires_at;
  verified_at = r.verified_at;
}

-- The fields that a submission writes back.
unfoldable pub scored : VerificationSessionState → VerificationSession → VerificationSession
scored s r = record r { status = s.status; attempts = s.attempts; verified_at = s.verified_at }

-- `VerificationRepository.get_by_token_hash`
unfoldable pub get_by_token_hash : String → List VerificationSession → Option VerificationSession
get_by_token_hash token_hash rs = find (λ r. r.token_hash == token_hash) rs

-- `VerificationRepository.add`; the hash is a unique column.
unfoldable pub add_session : VerificationSession → Action VerificationWorld (Unit {0})
add_session r w =
    if any (λ q. q.token_hash == r.token_hash || q.id == r.id) w.sessions
    then (err integrity_error, w)
    else (ok tt, record w { sessions = r ∷ w.sessions })

-- What the rate limiter does with its store.
abbrev pub on_limits : {A : Type 0} → Action InMemoryRateLimitStore A → Action VerificationWorld A
on_limits m w = let (r, s) = m w.limits in (r, record w { limits = s })

abbrev pub lock_key : VerificationSession → String
lock_key r = join "verify:" r.booking_id

module _ (hash_token : String → String) where
  -- `raw_token` is what the random generator gives, `id` the id of the new row.
  unfoldable pub start :
      String → String → ℕ → String → String → Option String → Action VerificationWorld String
  unfolding add_session
  start raw_token id now booking_id purpose call_id = do
    add_session (record {
      id = id;
      call_id = call_id;
      booking_id = booking_id;
      purpose = purpose;
      token_hash = hash_token raw_token;
      status = verification_pending;
      attempts = 0;
      expires_at = now + default_ttl;
      verified_at = none;
      created_at = now;
    })
    pure raw_token

  -- A terminal session is not scored again.
  abbrev pub write_back :
      Option BackoffLockout
      → VerificationSession
      → Bool
      → ℕ
      → SubmitResult VerificationSessionState
      → Action VerificationWorld VerificationSession
  write_back limiter r matched now (session_error _) = raise (auth_error "VERIFICATION_EXPIRED")
  write_back limiter r matched now (submitted s) = do
    update (λ w. record w { sessions = change (λ q. q.id == r.id) (scored s) w.sessions })
    on_limits (note_attempt limiter (lock_key r) matched now)
    pure (scored s r)

  abbrev pub submit_found :
      Option BackoffLockout
      → String
      → Bool
      → ℕ
      → Option VerificationSession
      → Action VerificationWorld VerificationSession
  submit_found limiter raw_token matched now none w =
      (err (auth_error "BOOKING_VERIFICATION_FAILED"), w)
  submit_found limiter raw_token matched now (some r) w =
      if not (hash_token raw_token == r.token_hash)
      then (err (auth_error "BOOKING_VERIFICATION_FAILED"), w)
      else if not (is_open limiter (lock_key r) now w.limits)
      then (err (auth_error "RATE_LIMITED"), w)
      else write_back limiter r matched now (submit_factor_result matched now (to_state r)) w

  unfoldable pub submit :
      Option BackoffLockout
      → ℕ
      → String
      → Booking
      → Option String
      → Option String
      → Action VerificationWorld VerificationSession
  submit limiter now raw_token booking email_or_phone last_name w =
      submit_found limiter raw_token (verify booking email_or_phone last_name) now
        (get_by_token_hash (hash_token raw_token) w.sessions) w

  abbrev pub check_found : ℕ → String → String → String → Option VerificationSession → Bool
  check_found now raw_token booking_id purpose none = false
  check_found now raw_token booking_id purpose (some r) =
      hash_token raw_token == r.token_hash
      && is_usable (to_state r) now
      && scoped_to (to_state r) booking_id purpose

  -- Does the token open the booking for the purpose?
  unfoldable pub check : ℕ → String → String → String → VerificationWorld → Bool
  check now raw_token booking_id purpose w =
      check_found now raw_token booking_id purpose
        (get_by_token_hash (hash_token raw_token) w.sessions)
