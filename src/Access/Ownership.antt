-- ===== src/Access/Ownership.antt =====
-- Resource-ownership authorization: apps/api/app/core/security/ownership.py, and the HTTP statuses
-- of the error codes, errors.py beside it.
pub mod Laws
use vapivoiceassistant.Prelude.{
  ℕ, String, Bool, true, false, ◌&&◌, Option, none, some, List, [], ◌∷◌, ◌==◌, if◌then◌else◌,
}
use vapivoiceassistant.Prelude.Dict.{Dict}
use vapivoiceassistant.Access.Actor.{
  ActorType, human_user, vapi_agent, anonymous_verified, system, CurrentActor, has_permission,
  is_staff, has_valid_booking_verification,
}

abbrev pub http_status_for_code : Dict ℕ
http_status_for_code =
    ("AUTHENTICATION_REQUIRED", 401)
    ∷ ("INVALID_CREDENTIALS", 401)
    ∷ ("ACCOUNT_SUSPENDED", 403)
    ∷ ("ACCOUNT_DISABLED", 403)
    ∷ ("ACCOUNT_PENDING_VERIFICATION", 403)
    ∷ ("SESSION_EXPIRED", 401)
    ∷ ("SESSION_REVOKED", 401)
    ∷ ("FORBIDDEN", 403)
    ∷ ("PERMISSION_DENIED", 403)
    ∷ ("BOOKING_VERIFICATION_REQUIRED", 403)
    ∷ ("BOOKING_VERIFICATION_FAILED", 403)
    ∷ ("VERIFICATION_EXPIRED", 403)
    ∷ ("RATE_LIMITED", 429)
    ∷ ("CSRF_FAILED", 403)
    ∷ ("WEAK_PASSWORD", 422)
    ∷ ("EMAIL_ALREADY_REGISTERED", 409)
    ∷ ("INVALID_TOKEN", 400)
    ∷ []

pub record AuthDecision : Type 0 where
  pub allowed : Bool
  pub reason : String
  pub error_code : Option String

abbrev pub allow : String → AuthDecision
allow reason = record { allowed = true; reason = reason; error_code = none }

abbrev pub deny : String → String → AuthDecision
deny reason error_code = record { allowed = false; reason = reason; error_code = some error_code }

-- Both ids are there, and equal.
unfoldable pub same_customer : Option String → Option String → Bool
same_customer (some a) (some b) = a == b
same_customer _ _ = false

-- A purpose and a booking are given, and the actor's verification is for them.
verification_fits : CurrentActor → Option String → Option String → Bool
verification_fits actor (some booking_id) (some purpose) =
    has_valid_booking_verification actor booking_id purpose
verification_fits actor _ _ = false

authorize_human : CurrentActor → Option String → String → AuthDecision
authorize_human actor resource_customer_id staff_permission =
    if same_customer actor.customer_id resource_customer_id
    then (if has_permission actor staff_permission
        then allow "owner"
        else deny "missing_permission_for_self_access" "PERMISSION_DENIED")
    else if is_staff actor && has_permission actor staff_permission
    then allow "staff_permission"
    else deny "not_owner_not_staff" "FORBIDDEN"

authorize_token : CurrentActor → Option String → Option String → Bool → AuthDecision
authorize_token actor resource_booking_id verification_purpose call_authenticated =
    if verification_fits actor resource_booking_id verification_purpose
    then (if call_authenticated
        then allow "verified_booking_token"
        else deny "vapi_call_not_authenticated" "AUTHENTICATION_REQUIRED")
    else deny "no_valid_booking_verification" "BOOKING_VERIFICATION_REQUIRED"

authorize_as :
    ActorType → CurrentActor → Option String → String → Option String → Option String → AuthDecision
unfolding authorize_human authorize_token verification_fits
authorize_as human_user actor customer permission booking purpose =
    authorize_human actor customer permission
authorize_as vapi_agent actor customer permission booking purpose =
    authorize_token actor booking purpose
      (actor.vapi_authenticated && has_permission actor "vapi.execute")
authorize_as anonymous_verified actor customer permission booking purpose =
    authorize_token actor booking purpose true
authorize_as system actor customer permission booking purpose =
    deny "not_owner_not_staff" "FORBIDDEN"

-- The arguments are the actor, the resource's customer, the permission that is needed, the
-- resource's booking and the purpose of a verification.
unfoldable pub authorize_resource_access :
    CurrentActor → Option String → String → Option String → Option String → AuthDecision
unfolding authorize_as
authorize_resource_access actor customer permission booking purpose =
    authorize_as actor.actor_type actor customer permission booking purpose

-- The arguments are the actor, the booking's customer, the booking, the permission and the purpose.
unfoldable pub authorize_booking_access :
    CurrentActor → Option String → String → String → Option String → AuthDecision
unfolding authorize_resource_access
authorize_booking_access actor customer booking permission purpose =
    authorize_resource_access actor customer permission (some booking) purpose

unfoldable pub authorize_passenger_access :
    CurrentActor → Option String → String → String → Option String → AuthDecision
unfolding authorize_resource_access
authorize_passenger_access actor customer booking permission purpose =
    authorize_resource_access actor customer permission (some booking) purpose

unfoldable pub authorize_customer_profile_access :
    CurrentActor → Option String → String → AuthDecision
unfolding authorize_resource_access
authorize_customer_profile_access actor customer permission =
    authorize_resource_access actor customer permission none none

unfoldable pub authorize_staff_access : CurrentActor → String → AuthDecision
authorize_staff_access actor permission =
    if is_staff actor && has_permission actor permission
    then allow "staff_permission"
    else deny "not_staff_or_missing_permission" "FORBIDDEN"

unfoldable pub authorize_payment_access :
    CurrentActor → Option String → String → String → AuthDecision
unfolding authorize_resource_access
authorize_payment_access actor customer booking permission =
    authorize_resource_access actor customer permission (some booking) none
