-- ===== src/Access/Actor.antt =====
-- The one representation of who makes a request: apps/api/app/core/security/actor.py.
use vapivoiceassistant.Prelude.{
  String, Bool, true, false, not, ◌&&◌, Option, none, List, [], ◌∷◌, any, contains, is_some, holds,
  ◌==◌,
}

pub data ActorType : Type 0 where
  human_user vapi_agent anonymous_verified system : ActorType

pub record CurrentActor : Type 0 where
  pub actor_type : ActorType
  pub user_id : Option String
  pub customer_id : Option String
  pub roles : List String
  pub permissions : List String
  pub account_status : Option String
  pub vapi_authenticated : Bool
  pub call_id : Option String
  pub assistant_id : Option String
  pub tool_execution_id : Option String
  pub verified_booking_id : Option String
  pub verified_purpose : Option String
  pub booking_verification_status : Option String
  pub request_id : Option String

abbrev is_human_user : ActorType → Bool
is_human_user human_user = true
is_human_user _ = false

unfoldable pub has_permission : CurrentActor → String → Bool
has_permission actor permission = contains permission actor.permissions

unfoldable pub has_any_permission : CurrentActor → List String → Bool
has_any_permission actor permissions = any (λ p. contains p actor.permissions) permissions

unfoldable pub is_authenticated_human : CurrentActor → Bool
is_authenticated_human actor = is_human_user actor.actor_type && is_some actor.user_id

-- `bool(self.roles - {"CUSTOMER"})` for an authenticated human.
unfoldable pub is_staff : CurrentActor → Bool
unfolding is_authenticated_human
is_staff actor = is_authenticated_human actor && any (λ r. not (r == "CUSTOMER")) actor.roles

unfoldable pub has_valid_booking_verification : CurrentActor → String → String → Bool
has_valid_booking_verification actor booking_id purpose =
    holds actor.verified_booking_id booking_id
    && holds actor.verified_purpose purpose
    && holds actor.booking_verification_status "VERIFIED"

unfoldable pub system_actor : CurrentActor
system_actor = record {
  actor_type = system;
  user_id = none;
  customer_id = none;
  roles = [];
  permissions = "system.manage" ∷ [];
  account_status = none;
  vapi_authenticated = false;
  call_id = none;
  assistant_id = none;
  tool_execution_id = none;
  verified_booking_id = none;
  verified_purpose = none;
  booking_verification_status = none;
  request_id = none;
}
