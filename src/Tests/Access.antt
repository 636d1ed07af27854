-- ===== src/Tests/Access.antt =====
-- Witnesses for access control.
use vapivoiceassistant.Prelude.{◌≡◌, refl, String, true, false, some, none, List, [], ◌∷◌, contains}
use vapivoiceassistant.Prelude.Dict.{lookup}
use vapivoiceassistant.Access.Rbac.{permissions_for_roles}
use vapivoiceassistant.Access.Rbac.Laws.{grants}
use vapivoiceassistant.Access.Actor.{
  CurrentActor, human_user, vapi_agent, anonymous_verified, is_staff, has_permission,
}
use vapivoiceassistant.Access.Ownership.{
  same_customer, authorize_resource_access, authorize_staff_access, authorize_payment_access,
  authorize_booking_access,
}
use vapivoiceassistant.Access.Ownership.Laws.{customer_reaches_only_own}
use vapivoiceassistant.Access.VapiTools.{
  ToolEntry, requires_verified_booking, staff_or_admin_only, tool_authorization_matrix,
  vapi_assistant_permissions, authorize_vapi_tool_call,
}

abbrev customer : CurrentActor
customer = record {
  actor_type = human_user;
  user_id = some "u1";
  customer_id = some "c1";
  roles = "CUSTOMER" ∷ [];
  permissions = "bookings.read" ∷ [];
  account_status = some "ACTIVE";
  vapi_authenticated = false;
  call_id = none;
  assistant_id = none;
  tool_execution_id = none;
  verified_booking_id = none;
  verified_purpose = none;
  booking_verification_status = none;
  request_id = none;
}

abbrev agent : CurrentActor
agent = record customer { customer_id = none; roles = "BOOKING_AGENT" ∷ [] }

abbrev verified_caller : CurrentActor
verified_caller = record customer {
  actor_type = anonymous_verified;
  customer_id = none;
  roles = [];
  permissions = [];
  verified_booking_id = some "b1";
  verified_purpose = some "vapi_tool_access";
  booking_verification_status = some "VERIFIED";
}

abbrev assistant : CurrentActor
assistant = record verified_caller {
  actor_type = vapi_agent;
  permissions = vapi_assistant_permissions;
  vapi_authenticated = true;
}

own_allowed :
    (authorize_resource_access customer (some "c1") "bookings.read" none none).allowed ≡ true
unfolding authorize_resource_access contains same_customer has_permission is_staff
own_allowed = refl

customer_reaches_only_own_example :
    (c : String) × (customer.customer_id ≡ some c) × (some "c1" ≡ some c)
customer_reaches_only_own_example =
    customer_reaches_only_own customer (some "c1") "bookings.read" none none refl refl own_allowed

payment_allowed :
    (authorize_payment_access customer (some "c1") "b1" "bookings.read").allowed ≡ true
unfolding authorize_payment_access authorize_resource_access contains same_customer has_permission
payment_allowed = refl

staff_allowed : (authorize_staff_access agent "bookings.read").allowed ≡ true
unfolding authorize_staff_access contains is_staff has_permission
staff_allowed = refl

other_denied :
    (authorize_resource_access customer (some "c2") "bookings.read" none none).allowed ≡ false
unfolding authorize_resource_access contains same_customer has_permission is_staff
other_denied = refl

abbrev refund_entry : ToolEntry
refund_entry = record { sensitivity = staff_or_admin_only; permission = "payments.refund" }

refund_found : lookup "refund_payment" tool_authorization_matrix ≡ some refund_entry
unfolding lookup
refund_found = refl

abbrev cancel_entry : ToolEntry
cancel_entry = record { sensitivity = requires_verified_booking; permission = "bookings.cancel" }

cancel_found : lookup "cancel_booking" tool_authorization_matrix ≡ some cancel_entry
unfolding lookup
cancel_found = refl

search_allowed : (authorize_vapi_tool_call assistant "search_flights" none none).allowed ≡ true
unfolding authorize_vapi_tool_call vapi_assistant_permissions contains lookup has_permission
    authorize_booking_access
search_allowed = refl

abbrev finance : List String
finance =
    "bookings.read" ∷ "payments.read" ∷ "payments.create" ∷ "payments.refund" ∷ "audit.read" ∷ []

finance_granted : permissions_for_roles ("FINANCE" ∷ []) ≡ some finance
unfolding permissions_for_roles lookup
finance_granted = refl

finance_refunds : grants "payments.refund" "FINANCE" ≡ true
unfolding lookup contains
finance_refunds = refl
