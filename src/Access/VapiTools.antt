-- ===== src/Access/VapiTools.antt =====
-- The authorization of tool calls by the voice assistant:
-- apps/api/app/core/security/vapi_authorization.py.
pub mod Laws
use vapivoiceassistant.Prelude.{
  String, Bool, true, false, not, Option, none, some, List, [], ◌∷◌, if◌then◌else◌,
}
use vapivoiceassistant.Prelude.Dict.{Dict, lookup}
use vapivoiceassistant.Access.Actor.{ActorType, vapi_agent, CurrentActor, has_permission}
use vapivoiceassistant.Access.Ownership.{AuthDecision, allow, deny, authorize_booking_access}

pub data ToolSensitivity : Type 0 where
  public requires_verified_booking staff_or_admin_only : ToolSensitivity

pub record ToolEntry : Type 0 where
  pub sensitivity : ToolSensitivity
  pub permission : String

abbrev pub tool_authorization_matrix : Dict ToolEntry
tool_authorization_matrix =
    ("search_flights", record { sensitivity = public; permission = "flights.read" })
    ∷ ("get_flight_details", record { sensitivity = public; permission = "flights.read" })
    ∷ (
      "get_booking",
      record { sensitivity = requires_verified_booking; permission = "bookings.read" },
    )
    ∷ (
      "modify_booking",
      record { sensitivity = requires_verified_booking; permission = "bookings.modify" },
    )
    ∷ (
      "cancel_booking",
      record { sensitivity = requires_verified_booking; permission = "bookings.cancel" },
    )
    ∷ (
      "add_passenger",
      record { sensitivity = requires_verified_booking; permission = "passengers.manage" },
    )
    ∷ (
      "refund_payment",
      record { sensitivity = staff_or_admin_only; permission = "payments.refund" },
    )
    ∷ (
      "configure_assistant",
      record { sensitivity = staff_or_admin_only; permission = "vapi.configure" },
    )
    ∷ ("get_aircraft_availability", record { sensitivity = public; permission = "flights.read" })
    ∷ ("get_fare_quote", record { sensitivity = public; permission = "flights.read" })
    ∷ ("get_cancellation_policy", record { sensitivity = public; permission = "bookings.read" })
    ∷ ("get_baggage_policy", record { sensitivity = public; permission = "flights.read" })
    ∷ ("verify_booking_customer", record { sensitivity = public; permission = "bookings.read" })
    ∷ ("create_booking", record { sensitivity = public; permission = "bookings.create" })
    ∷ ("transfer_to_human", record { sensitivity = public; permission = "support.read" })
    ∷ (
      "remove_passenger",
      record { sensitivity = requires_verified_booking; permission = "passengers.manage" },
    )
    ∷ (
      "add_baggage",
      record { sensitivity = requires_verified_booking; permission = "passengers.manage" },
    )
    ∷ (
      "get_seat_options",
      record { sensitivity = requires_verified_booking; permission = "bookings.read" },
    )
    ∷ (
      "select_seat",
      record { sensitivity = requires_verified_booking; permission = "bookings.modify" },
    )
    ∷ (
      "create_payment_session",
      record { sensitivity = requires_verified_booking; permission = "payments.create" },
    )
    ∷ (
      "get_payment_status",
      record { sensitivity = requires_verified_booking; permission = "payments.read" },
    )
    ∷ (
      "create_support_ticket",
      record { sensitivity = requires_verified_booking; permission = "support.read" },
    )
    ∷ ("create_callback_request", record { sensitivity = public; permission = "support.read" })
    ∷ []

abbrev for_assistant : ToolSensitivity → String → List String → List String
for_assistant staff_or_admin_only p ps = ps
for_assistant _ p ps = p ∷ ps

assistant_permissions : Dict ToolEntry → List String
assistant_permissions [] = []
assistant_permissions ((name, e) ∷ tools) =
    for_assistant e.sensitivity e.permission (assistant_permissions tools)

-- What any voice assistant may ever be granted.
unfoldable pub vapi_assistant_permissions : List String
unfolding assistant_permissions
vapi_assistant_permissions = "vapi.execute" ∷ assistant_permissions tool_authorization_matrix

-- A tool that the assistant is permitted, by its sensitivity.
authorize_permitted :
    ToolSensitivity → CurrentActor → String → Option String → Option String → AuthDecision
authorize_permitted public actor permission booking customer = allow "public_tool"
authorize_permitted _ actor permission none customer =
    deny "tool_requires_a_booking_id" "BOOKING_VERIFICATION_REQUIRED"
authorize_permitted _ actor permission (some booking) customer =
    authorize_booking_access actor customer booking permission (some "vapi_tool_access")

authorize_sensitive :
    ToolSensitivity → ToolEntry → CurrentActor → Option String → Option String → AuthDecision
authorize_sensitive staff_or_admin_only e actor booking customer =
    deny "requires_human_staff_or_admin" "PERMISSION_DENIED"
authorize_sensitive sensitivity e actor booking customer =
    if has_permission actor e.permission
    then authorize_permitted sensitivity actor e.permission booking customer
    else deny "tool_not_permitted_for_this_assistant" "PERMISSION_DENIED"

authorize_entry : Option ToolEntry → CurrentActor → Option String → Option String → AuthDecision
authorize_entry none actor booking customer = deny "unknown_tool" "FORBIDDEN"
authorize_entry (some e) actor booking customer =
    authorize_sensitive e.sensitivity e actor booking customer

abbrev is_vapi_agent : ActorType → Bool
is_vapi_agent vapi_agent = true
is_vapi_agent _ = false

-- The arguments are the actor, the tool's name, and the booking and its customer, if any.
unfoldable pub authorize_vapi_tool_call :
    CurrentActor → String → Option String → Option String → AuthDecision
unfolding authorize_permitted authorize_sensitive authorize_entry
authorize_vapi_tool_call actor tool_name booking customer =
    if not (is_vapi_agent actor.actor_type)
    then deny "not_a_vapi_actor" "AUTHENTICATION_REQUIRED"
    else if not actor.vapi_authenticated
    then deny "vapi_call_not_authenticated" "AUTHENTICATION_REQUIRED"
    else authorize_entry (lookup tool_name tool_authorization_matrix) actor booking customer
