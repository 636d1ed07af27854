-- ===== src/Vapi/Arguments/Search.antt =====
-- The rest of core/vapi/argument_mapping.py: the arguments as they arrive, the mappers of flight
-- searches, and the choice of a mapper. `loads` is `json.loads`, `repr` is `str` of a value that is
-- not a text, and `int_of` is Python's `int`, which may raise.
use vapivoiceassistant.Prelude.{String, Option, none, some, [], ◌∷◌, ◌==◌, if◌then◌else◌}
use vapivoiceassistant.Prelude.Text.{strip, upper_text}
use vapivoiceassistant.Errors.{Result, ok, err, argument_error, key_error}
use vapivoiceassistant.Vapi.Json.{
  Json, null, bool, num, text, list, dict, Fields, end, field, get, is_truthy, or_null, or_text,
}
use vapivoiceassistant.Vapi.Arguments.{
  ◌>>=◌, ◌>>◌, require, str_of, value_of, map_get_cancellation_policy, map_verify_booking_customer,
  map_get_booking, map_get_payment_status, map_add_passenger, map_remove_passenger,
  map_transfer_to_human, map_cancel_booking, map_create_payment_session, map_modify_booking,
  map_create_booking,
}

-- Only a dict will do.
abbrev only_dict : Option Json → Result Fields
only_dict (some (dict fs)) = ok fs
only_dict (some null) = err (argument_error "INVALID_ARGUMENTS")
only_dict (some (bool b)) = err (argument_error "INVALID_ARGUMENTS")
only_dict (some (num n)) = err (argument_error "INVALID_ARGUMENTS")
only_dict (some (text s)) = err (argument_error "INVALID_ARGUMENTS")
only_dict (some (list xs)) = err (argument_error "INVALID_ARGUMENTS")
only_dict none = err (argument_error "INVALID_ARGUMENTS")

module _ (loads : String → Option Json) where
  abbrev parse_value : Json → Result Fields
  parse_value null = ok end
  parse_value (dict fs) = ok fs
  parse_value (text s) = if strip s == "" then ok end else only_dict (loads s)
  parse_value (bool b) = err (argument_error "INVALID_ARGUMENTS")
  parse_value (num n) = err (argument_error "INVALID_ARGUMENTS")
  parse_value (list xs) = err (argument_error "INVALID_ARGUMENTS")

  unfoldable pub parse_tool_call_arguments : Option Json → Result Fields
  parse_tool_call_arguments raw = parse_value (or_null raw)

module _ (repr : Json → String) (int_of : Json → Result Json) where
  -- `str(args[key]).strip().upper()`
  abbrev airport : String → Fields → Json
  airport key args = text (upper_text (strip (str_of repr (value_of key args))))

  -- `int(args.get(key, 0) or 0)`
  abbrev count_of : String → Fields → Result Json
  count_of key args =
      if is_truthy (get key args) then int_of (value_of key args) else int_of (num 0)

  abbrev party : Fields → (Json → Json → Json → Fields) → Result Fields
  party args k = do
    adults ← int_of (value_of "adults" args)
    children ← count_of "children" args
    infants ← count_of "infants" args
    ok (k adults children infants)

  abbrev party_fields : Json → Json → Json → Fields → Fields
  party_fields adults children infants rest =
      field "adults" adults (field "children" children (field "infants" infants rest))

  unfoldable pub map_search_flights : Fields → Result Fields
  unfolding require
  map_search_flights args = do
    require ("origin" ∷ "destination" ∷ "departure_date" ∷ "adults" ∷ []) args
    party args (λ adults children infants. field "origin" (airport "origin" args) (
        field "destination" (airport "destination" args) (
          field "departure_date" (value_of "departure_date" args) (
            party_fields adults children infants (
              field "cabin_class" (or_text (get "cabin_class" args) "economy")
                (field "direct_only" (bool (is_truthy (get "direct_only" args))) end))))))

  unfoldable pub map_get_flight_details : Fields → Result Fields
  unfolding require
  map_get_flight_details args = do
    require ("flight_id" ∷ []) args
    ok (field "flight_id" (value_of "flight_id" args) end)

  -- `int(args["min_seats"]) if args.get("min_seats") is not None else None`
  abbrev int_or_null : Json → Result Json
  int_or_null null = ok null
  int_or_null (bool b) = int_of (bool b)
  int_or_null (num n) = int_of (num n)
  int_or_null (text s) = int_of (text s)
  int_or_null (list xs) = int_of (list xs)
  int_or_null (dict fs) = int_of (dict fs)

  unfoldable pub map_get_aircraft_availability : Fields → Result Fields
  map_get_aircraft_availability args = do
    seats ← int_or_null (value_of "min_seats" args)
    ok (
        field "origin" (if is_truthy (get "origin" args) then airport "origin" args else null) (
          field "category" (value_of "category" args)
            (field "on_date" (value_of "on_date" args) (field "min_seats" seats end))))

  unfoldable pub map_get_fare_quote : Fields → Result Fields
  unfolding require
  map_get_fare_quote args = do
    require ("flight_id" ∷ "adults" ∷ []) args
    party args (λ adults children infants. field "flight_id" (value_of "flight_id" args) (
        party_fields adults children infants
          (field "cabin_class" (or_text (get "cabin_class" args) "economy") end)))

  unfoldable pub map_get_baggage_policy : Fields → Result Fields
  unfolding require
  map_get_baggage_policy args = do
    require ("cabin_class" ∷ []) args
    ok (
        field "cabin_class" (value_of "cabin_class" args)
          (field "aircraft_type" (value_of "aircraft_type" args) end))

  module _ (derive : String → String → Fields → String) where
    -- `TOOL_ARGUMENT_MAPPERS[tool_name]`, called with the call's id where the mapper takes it.
    unfoldable pub map_arguments : String → String → Fields → Result Fields
    map_arguments name call_id args =
        if name == "search_flights"
        then map_search_flights args
        else if name == "get_flight_details"
        then map_get_flight_details args
        else if name == "get_aircraft_availability"
        then map_get_aircraft_availability args
        else if name == "get_fare_quote"
        then map_get_fare_quote args
        else if name == "get_cancellation_policy"
        then map_get_cancellation_policy repr args
        else if name == "get_baggage_policy"
        then map_get_baggage_policy args
        else if name == "verify_booking_customer"
        then map_verify_booking_customer repr args
        else if name == "get_booking"
        then map_get_booking repr args
        else if name == "create_booking"
        then map_create_booking repr derive args call_id
        else if name == "modify_booking"
        then map_modify_booking repr derive args call_id
        else if name == "cancel_booking"
        then map_cancel_booking repr derive args call_id
        else if name == "add_passenger"
        then map_add_passenger repr args
        else if name == "remove_passenger"
        then map_remove_passenger repr args
        else if name == "transfer_to_human"
        then map_transfer_to_human repr args
        else if name == "create_payment_session"
        then map_create_payment_session repr derive args call_id
        else if name == "get_payment_status"
        then map_get_payment_status repr args
        else err key_error
