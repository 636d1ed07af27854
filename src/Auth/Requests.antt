-- ===== src/Auth/Requests.antt =====
-- Who makes an HTTP request, and what it may touch: apps/api/app/api/deps_auth.py, with the reads of
-- services/rbac_service.py. The database of accounts and the table of verification sessions are the
-- two parts of the state.
pub mod Identity
pub mod Redeemed
use vapivoiceassistant.Prelude.{
  ℕ, String, Bool, true, false, ◌&&◌, ◌||◌, not, Option, none, some, List, [], ◌∷◌, ◌==◌, any,
  contains, keep, map, holds, is_some, truthy_text, or_default, if◌then◌else◌,
}
use vapivoiceassistant.Errors.{
  Result, ok, err, Action, pure, raise, or_raise, auth_error, value_error,
}
use vapivoiceassistant.Actions.{◌>>=◌, ◌>>◌, raise_when}
use vapivoiceassistant.Models.{Booking}
use vapivoiceassistant.Access.Rbac.{permissions_for_roles}
use vapivoiceassistant.Access.Actor.{
  ActorType, human_user, vapi_agent, anonymous_verified, system, CurrentActor, has_permission,
  is_authenticated_human,
}
use vapivoiceassistant.Access.Ownership.{
  AuthDecision, authorize_booking_access, authorize_passenger_access, authorize_payment_access,
  authorize_customer_profile_access, authorize_staff_access,
}
use vapivoiceassistant.VerificationService.{VerificationWorld, check}
use vapivoiceassistant.Auth.{User, UserSession, AuthDb, AuthWorld, AuthEnv, ask, get_user_by_id}
use vapivoiceassistant.Auth.Sessions.{validate_session}

-- An actor with no identity.
abbrev pub anonymous : Option String → CurrentActor
anonymous request_id = record {
  actor_type = anonymous_verified;
  user_id = none;
  customer_id = none;
  roles = [];
  permissions = [];
  account_status = none;
  vapi_authenticated = false;
  call_id = none;
  assistant_id = none;
  tool_execution_id = none;
  verified_booking_id = none;
  verified_purpose = none;
  booking_verification_status = none;
  request_id = request_id;
}

-- `RBACService.roles_for_user`
unfoldable pub roles_for_user : String → AuthDb → List String
roles_for_user user_id d = map (λ p. p.1) (keep (λ p. p.0 == user_id) d.user_roles)

-- `RBACService.permissions_for_user`; `UnknownRoleError` is a `ValueError`.
unfoldable pub permissions_for_user : String → Action AuthDb (List String)
unfolding roles_for_user
permissions_for_user user_id d =
    or_raise (permissions_for_roles (roles_for_user user_id d)) value_error d

abbrev pub on_db : {A : Type 0} → Action AuthDb A → Action AuthWorld A
on_db m w = let (r, d) = m w.working in (r, record w { working = d })

abbrev pub is_gone : User → Bool
is_gone user = is_some user.deleted_at || user.status == "DISABLED"

module _ (hash_token : String → String) (env : AuthEnv) where
  abbrev pub human : User → List String → List String → CurrentActor
  human user roles permissions = record (anonymous env.request_id) {
    actor_type = human_user;
    user_id = some user.id;
    customer_id = user.customer_id;
    roles = roles;
    permissions = permissions;
    account_status = some user.status;
  }

  abbrev pub actor_for : Option User → Action AuthWorld CurrentActor
  actor_for none w = (ok (anonymous env.request_id), w)
  actor_for (some user) w =
      if is_gone user
      then (ok (anonymous env.request_id), w)
      else (do
        roles ← ask (roles_for_user user.id)
        permissions ← on_db (permissions_for_user user.id)
        pure (human user roles permissions))
          w

  abbrev pub actor_in : Option UserSession → Action AuthWorld CurrentActor
  actor_in none w = (ok (anonymous env.request_id), w)
  actor_in (some session) w = (ask (get_user_by_id session.user_id) >>= actor_for) w

  abbrev pub actor_with : Option String → Action AuthWorld CurrentActor
  actor_with none w = (ok (anonymous env.request_id), w)
  actor_with (some token) w = (validate_session hash_token env token >>= actor_in) w

  -- The argument is the value of the session cookie.
  unfoldable pub get_current_actor : Option String → Action AuthWorld CurrentActor
  get_current_actor session_token = actor_with (truthy_text session_token)

module _ {S : Type 0} where
  unfoldable pub require_authenticated_user : CurrentActor → Action S CurrentActor
  require_authenticated_user actor = do
    raise_when (not (is_authenticated_human actor)) (auth_error "AUTHENTICATION_REQUIRED")
    raise_when (holds actor.account_status "SUSPENDED") (auth_error "ACCOUNT_SUSPENDED")
    pure actor

  unfoldable pub require_permission : String → CurrentActor → Action S CurrentActor
  unfolding require_authenticated_user
  require_permission permission given = do
    actor ← require_authenticated_user given
    raise_when (not (has_permission actor permission)) (auth_error "PERMISSION_DENIED")
    pure actor

  -- A denial becomes an exception with its code.
  unfoldable pub enforce : AuthDecision → CurrentActor → Action S CurrentActor
  enforce decision actor =
      if decision.allowed
      then pure actor
      else raise (auth_error (or_default decision.error_code "FORBIDDEN"))

  unfoldable pub require_staff_permission : String → CurrentActor → Action S CurrentActor
  unfolding require_authenticated_user enforce
  require_staff_permission permission given = do
    actor ← require_authenticated_user given
    enforce (authorize_staff_access actor permission) actor

  unfoldable pub require_role : List String → CurrentActor → Action S CurrentActor
  unfolding require_authenticated_user
  require_role role_names given = do
    actor ← require_authenticated_user given
    raise_when (not (any (λ r. contains r role_names) actor.roles)) (auth_error "FORBIDDEN")
    pure actor

  unfoldable pub require_admin : CurrentActor → Action S CurrentActor
  unfolding require_authenticated_user
  require_admin given = do
    actor ← require_authenticated_user given
    raise_when (not (has_permission actor "admin.manage")) (auth_error "PERMISSION_DENIED")
    pure actor

  unfoldable pub require_customer_profile_access :
      CurrentActor → String → String → Action S CurrentActor
  unfolding enforce
  require_customer_profile_access actor target_customer_id permission =
      enforce (authorize_customer_profile_access actor (some target_customer_id) permission) actor

  unfoldable pub require_payment_access : CurrentActor → Booking → String → Action S CurrentActor
  unfolding enforce
  require_payment_access actor booking permission =
      enforce (authorize_payment_access actor (some booking.customer_id) booking.id permission)
        actor

-- `actor_type in (ANONYMOUS_VERIFIED, VAPI_AGENT)`
abbrev pub may_redeem : ActorType → Bool
may_redeem human_user = false
may_redeem vapi_agent = true
may_redeem anonymous_verified = true
may_redeem system = false

abbrev pub upgraded : Booking → String → CurrentActor → CurrentActor
upgraded booking purpose actor = record actor {
  verified_booking_id = some booking.id;
  verified_purpose = some purpose;
  booking_verification_status = some "VERIFIED";
}

module _ (hash_token : String → String) (now : ℕ) where
  abbrev pub token_opens : Booking → String → Option String → VerificationWorld → Bool
  token_opens booking purpose none w = false
  token_opens booking purpose (some token) w = check hash_token now token booking.id purpose w

  unfoldable pub redeem_verification_token :
      CurrentActor → Booking → String → Option String → VerificationWorld → CurrentActor
  redeem_verification_token actor booking purpose token w =
      if may_redeem actor.actor_type && token_opens booking purpose (truthy_text token) w
      then upgraded booking purpose actor
      else actor

  unfoldable pub require_booking_access :
      CurrentActor
      → Booking
      → String
      → String
      → Option String
      → Action VerificationWorld CurrentActor
  unfolding redeem_verification_token enforce
  require_booking_access actor booking permission purpose token w =
      let effective = redeem_verification_token actor booking purpose token w in
      enforce
        (authorize_booking_access effective (some booking.customer_id) booking.id permission
          (some purpose))
        effective w

  unfoldable pub require_passenger_access :
      CurrentActor
      → Booking
      → String
      → String
      → Option String
      → Action VerificationWorld CurrentActor
  unfolding redeem_verification_token enforce
  require_passenger_access actor booking permission purpose token w =
      let effective = redeem_verification_token actor booking purpose token w in
      enforce
        (authorize_passenger_access effective (some booking.customer_id) booking.id permission
          (some purpose))
        effective w
