-- ===== src/Access/Ownership/Laws.antt =====
-- Who is let through by ownership.py, and with which error the others are turned away.
use vapivoiceassistant.Prelude.{
  ℕ, String, ◌≡◌, refl, true, false, ◌&&◌, ◌||◌, Option, none, some, arith, any, eq_iff, not, ◌==◌,
  ◌⊎◌,
}
use vapivoiceassistant.Prelude.Dict.{lookup}
use vapivoiceassistant.Access.Actor.{
  human_user, vapi_agent, anonymous_verified, CurrentActor, has_permission, is_staff,
  has_valid_booking_verification,
}
use vapivoiceassistant.Access.Ownership.{
  http_status_for_code, same_customer, authorize_resource_access, authorize_payment_access,
  authorize_staff_access, authorize_customer_profile_access,
}

-- A human reaches a resource exactly with the permission, and as its owner or as staff: the
-- booking and the purpose of a verification make no difference.
pub human_access :
    (actor : CurrentActor) (customer : Option String) (permission : String)
    (booking purpose : Option String)
    → actor.actor_type ≡ human_user
    → (authorize_resource_access actor customer permission booking purpose).allowed
      ≡ (same_customer actor.customer_id customer || is_staff actor)
        && has_permission actor permission
unfolding authorize_resource_access
human_access actor customer permission booking purpose h = ground arith

same_customer_lem :
    (a b : Option String) → same_customer a b ≡ true → (c : String) × (a ≡ some c) × (b ≡ some c)
unfolding same_customer
same_customer_lem (some a) (some b) h = (a, refl, ground (arith, eq_iff a b))
same_customer_lem none b h = absurd (cc h)
same_customer_lem (some a) none h = absurd (cc h)

-- A customer with no other role never reaches what belongs to someone else, or to nobody.
pub customer_reaches_only_own :
    (actor : CurrentActor) (customer : Option String) (permission : String)
    (booking purpose : Option String)
    → actor.actor_type ≡ human_user
    → any (λ r. not (r == "CUSTOMER")) actor.roles ≡ false
    → (authorize_resource_access actor customer permission booking purpose).allowed ≡ true
    → (c : String) × (actor.customer_id ≡ some c) × (customer ≡ some c)
unfolding is_staff
customer_reaches_only_own actor customer permission booking purpose h roles ok =
    same_customer_lem actor.customer_id customer
      (ground (arith, human_access actor customer permission booking purpose h))

-- A caller without an account reaches a booking exactly with a verification of that booking for
-- that purpose.
pub token_access :
    (actor : CurrentActor) (customer : Option String) (permission booking purpose : String)
    → actor.actor_type ≡ anonymous_verified
    → (authorize_resource_access actor customer permission (some booking) (some purpose)).allowed
      ≡ has_valid_booking_verification actor booking purpose
unfolding authorize_resource_access
token_access actor customer permission booking purpose h = ground arith

-- The voice assistant reaches a booking exactly with a verification of it for that purpose, in an
-- authenticated call, and with `vapi.execute`.
pub assistant_token_access :
    (actor : CurrentActor) (customer : Option String) (permission booking purpose : String)
    → actor.actor_type ≡ vapi_agent
    → (authorize_resource_access actor customer permission (some booking) (some purpose)).allowed
      ≡ has_valid_booking_verification actor booking purpose
        && (actor.vapi_authenticated && has_permission actor "vapi.execute")
unfolding authorize_resource_access
assistant_token_access actor customer permission booking purpose h = ground arith

-- Payments are reached by humans alone: no verification helps.
pub payment_access_needs_human :
    (actor : CurrentActor) (customer : Option String) (booking permission : String)
    → (authorize_payment_access actor customer booking permission).allowed ≡ true
    → actor.actor_type ≡ human_user
unfolding authorize_payment_access
payment_access_needs_human actor customer booking permission allowed = ground arith

-- A customer's profile is reached by humans alone.
pub profile_access_needs_human :
    (actor : CurrentActor) (customer : Option String) (permission : String)
    → (authorize_customer_profile_access actor customer permission).allowed ≡ true
    → actor.actor_type ≡ human_user
unfolding authorize_customer_profile_access
profile_access_needs_human actor customer permission allowed = ground arith

-- Whoever passes the check for lists over all customers reaches every single resource with that
-- permission too, and is staff.
pub staff_access_reaches_all :
    (actor : CurrentActor) (permission : String)
    → (authorize_staff_access actor permission).allowed ≡ true
    → (customer booking purpose : Option String)
    → (is_staff actor ≡ true)
      × ((authorize_resource_access actor customer permission booking purpose).allowed ≡ true)
unfolding authorize_staff_access authorize_resource_access is_staff
staff_access_reaches_all actor permission ok customer booking purpose = (ground arith, ground arith)

-- The status that `AuthError` gives a decision's error code.
abbrev pub status_of : Option String → Option ℕ
status_of none = none
status_of (some code) = lookup code http_status_for_code

-- Whoever is turned away is told so with an error code that stands for 401 or 403.
pub denial_status :
    (actor : CurrentActor) (customer : Option String) (permission : String)
    (booking purpose : Option String)
    → (authorize_resource_access actor customer permission booking purpose).allowed ≡ false
    → let d = authorize_resource_access actor customer permission booking purpose in
      (status_of d.error_code ≡ some 401) ⊎ (status_of d.error_code ≡ some 403)
unfolding authorize_resource_access lookup
denial_status actor customer permission booking purpose h = ground arith
