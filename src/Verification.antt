-- ===== src/Verification.antt =====
-- Booking-verification sessions: apps/api/app/core/security/verification.py. Times are natural
-- numbers of seconds; `now` is an argument, as in the source's tests.
pub mod Sessions
use vapivoiceassistant.Prelude.{
  ℕ, ◌+◌, ◌*◌, String, Bool, true, false, Option, none, some, leb, ltb, ◌==◌, ◌&&◌, if◌then◌else◌,
}

pub data VerificationStatus : Type 0 where
  unverified verification_pending verified expired failed : VerificationStatus

pub data SubmitResult (A : Type 0) : Type 0 where
  submitted : A → SubmitResult A
  -- `VerificationSessionError`, with the status that is already terminal
  session_error : VerificationStatus → SubmitResult A

pub record VerificationSessionState : Type 0 where
  pub id : String
  pub call_id : Option String
  pub booking_id : String
  pub purpose : String
  pub status : VerificationStatus
  pub attempts : ℕ
  pub max_attempts : ℕ
  pub created_at : ℕ
  pub expires_at : ℕ
  pub verified_at : Option ℕ

abbrev pub default_ttl : ℕ
default_ttl = 15 * 60

abbrev pub default_max_attempts : ℕ
default_max_attempts = 5

unfoldable pub start :
    String → String → String → Option String → ℕ → ℕ → ℕ → VerificationSessionState
start session_id booking_id purpose call_id ttl max_attempts now = record {
  id = session_id;
  call_id = call_id;
  booking_id = booking_id;
  purpose = purpose;
  status = verification_pending;
  attempts = 0;
  max_attempts = max_attempts;
  created_at = now;
  expires_at = now + ttl;
  verified_at = none;
}

-- The status once the session's end has come: only a session that waits can expire.
effective : VerificationStatus → Bool → VerificationStatus
effective verification_pending true = expired
effective unverified true = expired
effective status _ = status

unfoldable pub effective_status : VerificationSessionState → ℕ → VerificationStatus
unfolding effective
effective_status s now = effective s.status (leb s.expires_at now)

abbrev pub is_verified : VerificationStatus → Bool
is_verified verified = true
is_verified _ = false

unfoldable pub is_usable : VerificationSessionState → ℕ → Bool
is_usable s now = is_verified s.status && ltb now s.expires_at

-- A factor result for a session that still waits.
score : Bool → ℕ → VerificationSessionState → VerificationSessionState
score matched now s =
    let attempts = s.attempts + 1 in
    if matched
    then record s { status = verified; attempts = attempts; verified_at = some now }
    else if leb s.max_attempts attempts
    then record s { status = failed; attempts = attempts }
    else record s { status = verification_pending; attempts = attempts }

submit_as :
    VerificationStatus → Bool → ℕ → VerificationSessionState → SubmitResult VerificationSessionState
unfolding score
submit_as expired matched now s = submitted (record s { status = expired })
submit_as verified matched now s = session_error verified
submit_as failed matched now s = session_error failed
submit_as verification_pending matched now s = submitted (score matched now s)
submit_as unverified matched now s = submitted (score matched now s)

unfoldable pub submit_factor_result :
    Bool → ℕ → VerificationSessionState → SubmitResult VerificationSessionState
unfolding submit_as effective_status
submit_factor_result matched now s = submit_as (effective_status s now) matched now s

unfoldable pub scoped_to : VerificationSessionState → String → String → Bool
scoped_to s booking_id purpose = s.booking_id == booking_id && s.purpose == purpose

unfoldable pub current_status : VerificationSessionState → ℕ → VerificationStatus
unfolding effective_status
current_status s now = effective_status s now
