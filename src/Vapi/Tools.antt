-- ===== src/Vapi/Tools.antt =====
-- The tools that are registered with the voice assistant: apps/api/app/core/vapi/tool_schemas.py,
-- without the descriptions and the schemas of the parameters.
use vapivoiceassistant.Prelude.{Bool, true, false, ◌∷◌, [], List, String}
use vapivoiceassistant.Prelude.Dict.{Dict}

pub record VapiToolSchema : Type 0 where
  pub mutates : Bool
  pub requires_confirmation : Bool
  pub implemented : Bool

abbrev reads : VapiToolSchema
reads = record { mutates = false; requires_confirmation = false; implemented = true }

abbrev confirmed_change : VapiToolSchema
confirmed_change = record { mutates = true; requires_confirmation = true; implemented = true }

abbrev later : Bool → Bool → VapiToolSchema
later mutates requires_confirmation = record {
  mutates = mutates;
  requires_confirmation = requires_confirmation;
  implemented = false;
}

abbrev pub vapi_tool_schemas : Dict VapiToolSchema
vapi_tool_schemas =
    ("search_flights", reads)
    ∷ ("get_flight_details", reads)
    ∷ ("get_aircraft_availability", reads)
    ∷ ("get_fare_quote", reads)
    ∷ ("get_cancellation_policy", reads)
    ∷ ("get_baggage_policy", reads)
    ∷ ("verify_booking_customer", reads)
    ∷ ("get_booking", reads)
    ∷ ("create_booking", confirmed_change)
    ∷ ("modify_booking", confirmed_change)
    ∷ ("cancel_booking", confirmed_change)
    ∷ (
      "add_passenger",
      record { mutates = true; requires_confirmation = false; implemented = true },
    )
    ∷ ("remove_passenger", confirmed_change)
    ∷ ("transfer_to_human", reads)
    ∷ ("add_baggage", later true true)
    ∷ ("get_seat_options", later false false)
    ∷ ("select_seat", later true false)
    ∷ ("create_payment_session", confirmed_change)
    ∷ ("get_payment_status", reads)
    ∷ ("create_support_ticket", later true false)
    ∷ ("create_callback_request", later true false)
    ∷ []

-- `_PNR_TOOLS` of api/routes/vapi.py
abbrev pub pnr_tools : List String
pnr_tools =
    "verify_booking_customer" ∷ "get_booking" ∷ "modify_booking" ∷ "cancel_booking"
    ∷ "add_passenger" ∷ "remove_passenger" ∷ "create_payment_session" ∷ "get_payment_status" ∷ []
