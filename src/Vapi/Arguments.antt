-- ===== src/Vapi/Arguments.antt =====
-- From the arguments of a tool call to the fields of a request:
-- apps/api/app/core/vapi/argument_mapping.py. `repr` is `str` of a value that is not a text, and
-- `derive` the hash of `derive_idempotency_key`. The mappers of flight searches are not modelled.
pub mod Laws
pub mod Search
use vapivoiceassistant.Prelude.{
  ℕ, String, Bool, true, false, not, ◌&&◌, ◌||◌, Option, none, some, List, [], ◌∷◌, any, contains,
  length, eqb, ◌==◌, if◌then◌else◌,
}
use vapivoiceassistant.Prelude.Text.{codes, strip, upper_text}
use vapivoiceassistant.Errors.{Result, ok, err, argument_error}
use vapivoiceassistant.Vapi.Json.{
  Json, null, bool, num, text, list, dict, Items, nil, cons, Fields, end, field, get, is_absent,
  is_truthy, is_true, or_null, or_text,
}

infixl 5 ◌>>=◌ ◌>>◌
abbrev pub ◌>>=◌ : {A B : Type 0} → Result A → (A → Result B) → Result B
ok a >>= f = f a
err e >>= f = err e

abbrev pub ◌>>◌ : {B : Type 0} → Result (Unit {0}) → Result B → Result B
m >> k = m >>= λ _. k

-- `_require`
unfoldable pub require : List String → Fields → Result (Unit {0})
require names args =
    if any (λ n. is_absent (get n args)) names
    then err (argument_error "MISSING_ARGUMENT")
    else ok tt

abbrev pub str_of : (Json → String) → Json → String
str_of repr (text s) = s
str_of repr null = repr null
str_of repr (bool b) = repr (bool b)
str_of repr (num n) = repr (num n)
str_of repr (list xs) = repr (list xs)
str_of repr (dict fs) = repr (dict fs)

abbrev pub six_letters : String → Result String
six_letters pnr =
    if eqb (length (codes pnr)) 6 then ok pnr else err (argument_error "INVALID_ARGUMENTS")

abbrev pub value_of : String → Fields → Json
value_of key args = or_null (get key args)

-- The customer's yes has to be the value `True` itself.
unfoldable pub confirmed : Fields → Result (Unit {0})
confirmed args =
    if is_true (get "customer_confirmed" args)
    then ok tt
    else err (argument_error "CONFIRMATION_REQUIRED")

module _ (repr : Json → String) where
  -- `str(args["pnr"]).strip().upper()`
  abbrev pub pnr_text : Fields → String
  pnr_text args = upper_text (strip (str_of repr (value_of "pnr" args)))

  -- `_pnr`
  unfoldable pub pnr_of : Fields → Result String
  unfolding require
  pnr_of args = do require ("pnr" ∷ []) args; six_letters (pnr_text args)

  unfoldable pub map_get_cancellation_policy : Fields → Result Fields
  unfolding pnr_of
  map_get_cancellation_policy args = do pnr ← pnr_of args; ok (field "pnr" (text pnr) end)

  unfoldable pub map_verify_booking_customer : Fields → Result Fields
  unfolding pnr_of
  map_verify_booking_customer args = do
    pnr ← pnr_of args
    if is_truthy (get "email_or_phone" args) || is_truthy (get "last_name" args)
        then ok (
            field "pnr" (text pnr) (
              field "purpose" (text "vapi_tool_access") (
                field "verification_token" (value_of "verification_token" args) (
                  field "email_or_phone" (value_of "email_or_phone" args)
                    (field "last_name" (value_of "last_name" args) end)))))
        else err (argument_error "MISSING_ARGUMENT")

  -- The PNR and the token.
  abbrev pub with_token : String → Fields → Fields → Fields
  with_token pnr args rest =
      field "pnr" (text pnr) (field "verification_token" (value_of "verification_token" args) rest)

  unfoldable pub map_get_booking : Fields → Result Fields
  unfolding pnr_of require
  map_get_booking args = do
    pnr ← pnr_of args
    require ("verification_token" ∷ []) args
    ok (with_token pnr args end)

  unfoldable pub map_get_payment_status : Fields → Result Fields
  unfolding pnr_of require
  map_get_payment_status args = do
    pnr ← pnr_of args
    require ("verification_token" ∷ []) args
    ok (with_token pnr args end)

  abbrev passenger_fields : String → Fields → Fields
  passenger_fields pnr args = with_token pnr args (
      field "first_name" (value_of "first_name" args) (
        field "middle_name" (value_of "middle_name" args) (
          field "last_name" (value_of "last_name" args) (
            field "date_of_birth" (value_of "date_of_birth" args) (
              field "passenger_type" (or_text (get "passenger_type" args) "adult") (
                field "gender" (value_of "gender" args) (
                  field "nationality" (value_of "nationality" args) (
                    field "meal_preference" (value_of "meal_preference" args) (
                      field "seat_preference" (value_of "seat_preference" args) (
                        field "special_assistance" (value_of "special_assistance" args) (
                          field "frequent_flyer_number" (value_of "frequent_flyer_number" args)
                            end)))))))))))

  unfoldable pub map_add_passenger : Fields → Result Fields
  unfolding pnr_of require
  map_add_passenger args = do
    pnr ← pnr_of args
    require ("verification_token" ∷ "first_name" ∷ "last_name" ∷ []) args
    ok (passenger_fields pnr args)

  unfoldable pub map_remove_passenger : Fields → Result Fields
  unfolding pnr_of require confirmed
  map_remove_passenger args = do
    pnr ← pnr_of args
    require ("verification_token" ∷ "booking_passenger_id" ∷ []) args
    confirmed args
    ok (
        with_token pnr args
          (field "booking_passenger_id" (value_of "booking_passenger_id" args) end))

  unfoldable pub map_transfer_to_human : Fields → Result Fields
  map_transfer_to_human args = ok (
      field "reason"
        (if is_truthy (get "reason" args) then value_of "reason" args else text "not specified")
        end)

  module _ (derive : String → String → Fields → String) where
    -- The fields of a request that names a booking and is confirmed.
    abbrev pub keyed : String → String → String → Fields → Fields
    keyed operation call_id pnr args = field "pnr" (text pnr) (
        field "idempotency_key" (text (derive call_id operation (field "pnr" (text pnr) end))) (
          field "customer_confirmed" (bool true)
            (field "verification_token" (value_of "verification_token" args) end)))

    unfoldable pub map_cancel_booking : Fields → String → Result Fields
    unfolding pnr_of require confirmed
    map_cancel_booking args call_id = do
      pnr ← pnr_of args
      require ("verification_token" ∷ []) args
      confirmed args
      ok (keyed "cancel_booking" call_id pnr args)

    unfoldable pub map_create_payment_session : Fields → String → Result Fields
    unfolding pnr_of require confirmed
    map_create_payment_session args call_id = do
      pnr ← pnr_of args
      require ("verification_token" ∷ []) args
      confirmed args
      ok (keyed "create_payment_session" call_id pnr args)

    abbrev changes : String → Fields → Fields
    changes pnr args = field "pnr" (text pnr) (
        field "new_flight_id" (value_of "new_flight_id" args) (
          field "new_contact_email" (value_of "new_contact_email" args)
            (field "new_contact_phone" (value_of "new_contact_phone" args) end)))

    abbrev pub names_change : Fields → Bool
    names_change args =
        any (λ k. is_truthy (get k args))
          ("new_flight_id" ∷ "new_contact_email" ∷ "new_contact_phone" ∷ [])

    abbrev pub modification : String → String → Fields → Fields
    modification call_id pnr args = field "pnr" (text pnr) (
        field "idempotency_key" (text (derive call_id "modify_booking" (changes pnr args))) (
          field "customer_confirmed" (bool true) (
            field "new_flight_id" (value_of "new_flight_id" args) (
              field "new_contact_email" (value_of "new_contact_email" args) (
                field "new_contact_phone" (value_of "new_contact_phone" args)
                  (field "verification_token" (value_of "verification_token" args) end))))))

    unfoldable pub map_modify_booking : Fields → String → Result Fields
    unfolding pnr_of require confirmed
    map_modify_booking args call_id = do
      pnr ← pnr_of args
      require ("verification_token" ∷ []) args
      confirmed args
      if names_change args
          then ok (modification call_id pnr args)
          else err (argument_error "MISSING_ARGUMENT")

    abbrev map_named : Fields → Fields
    map_named p = field "first_name" (value_of "first_name" p) (
        field "last_name" (value_of "last_name" p) (
          field "date_of_birth" (value_of "date_of_birth" p)
            (field "passenger_type" (or_text (get "passenger_type" p) "adult") end)))

    abbrev is_named : Fields → Bool
    is_named p = is_truthy (get "first_name" p) && is_truthy (get "last_name" p)

    -- One entry of the list of passengers.
    abbrev map_passenger : Json → Result Json
    map_passenger (dict p) =
        if is_named p then ok (dict (map_named p)) else err (argument_error "MISSING_ARGUMENT")
    map_passenger null = err (argument_error "MISSING_ARGUMENT")
    map_passenger (bool b) = err (argument_error "MISSING_ARGUMENT")
    map_passenger (num n) = err (argument_error "MISSING_ARGUMENT")
    map_passenger (text s) = err (argument_error "MISSING_ARGUMENT")
    map_passenger (list xs) = err (argument_error "MISSING_ARGUMENT")

    unfoldable pub map_passengers : Items → Result Items
    map_passengers nil = ok nil
    map_passengers (cons p ps) =
        let rest = map_passengers ps in map_passenger p >>= λ q. rest >>= λ qs. ok (cons q qs)

    -- `args["passengers"]`, if it is a list that is not empty.
    abbrev passenger_list : Json → Result Items
    passenger_list (list (cons p ps)) = ok (cons p ps)
    passenger_list (list nil) = err (argument_error "MISSING_ARGUMENT")
    passenger_list null = err (argument_error "MISSING_ARGUMENT")
    passenger_list (bool b) = err (argument_error "MISSING_ARGUMENT")
    passenger_list (num n) = err (argument_error "MISSING_ARGUMENT")
    passenger_list (text s) = err (argument_error "MISSING_ARGUMENT")
    passenger_list (dict fs) = err (argument_error "MISSING_ARGUMENT")

    abbrev creation_payload : Items → Fields → Fields
    creation_payload passengers args = field "quote_id" (value_of "quote_id" args) (
        field "passengers" (list passengers) (
          field "contact_email" (value_of "contact_email" args)
            (field "contact_phone" (value_of "contact_phone" args) end)))

    abbrev contact_fields : Fields → Fields
    contact_fields args =
        field "email" (value_of "contact_email" args)
          (field "phone" (value_of "contact_phone" args) end)

    abbrev creation : String → Items → Fields → Fields
    creation call_id passengers args = field "quote_id" (value_of "quote_id" args) (
        field "passengers" (list passengers) (
          field "contact" (dict (contact_fields args)) (
            field "idempotency_key"
              (text (derive call_id "create_booking" (creation_payload passengers args))) end)))

    unfoldable pub map_create_booking : Fields → String → Result Fields
    unfolding require map_passengers
    map_create_booking args call_id = do
      require ("quote_id" ∷ "passengers" ∷ "contact_email" ∷ "contact_phone" ∷ []) args
      given ← passenger_list (value_of "passengers" args)
      passengers ← map_passengers given
      ok (creation call_id passengers args)
