-- ===== src/Vapi/Arguments/Laws.antt =====
-- What the mappers take from the model's arguments, and what not.
use vapivoiceassistant.Prelude.{
  String, ◌≡◌, refl, true, [], ◌∷◌, Bool-cases, inl, inr, if◌then◌else◌,
}
use vapivoiceassistant.Errors.{Result, ok, err, argument_error}
use vapivoiceassistant.Vapi.Json.{Json, Fields, end, field, get, set, is_true}
use vapivoiceassistant.Vapi.Arguments.{
  ◌>>=◌, ◌>>◌, require, confirmed, pnr_of, value_of, with_token, keyed, names_change, modification,
  map_remove_passenger, map_cancel_booking, map_create_payment_session, map_modify_booking,
  map_create_booking,
}

module _ (repr : Json → String) (derive : String → String → Fields → String) where
  -- An idempotency key among the arguments of a tool call makes no difference: the tools that need
  -- one make it from the call and the request alone.
  pub supplied_key_is_ignored :
      (args : Fields) (key : Json) (call_id : String)
      → let forged = set "idempotency_key" key args in
        (map_cancel_booking repr derive forged call_id
          ≡ map_cancel_booking repr derive args call_id)
        × ((map_modify_booking repr derive forged call_id
              ≡ map_modify_booking repr derive args call_id)
            × ((map_create_payment_session repr derive forged call_id
                  ≡ map_create_payment_session repr derive args call_id)
                × (map_create_booking repr derive forged call_id
                    ≡ map_create_booking repr derive args call_id)))
  unfolding map_cancel_booking map_modify_booking map_create_payment_session map_create_booking get
      set
  supplied_key_is_ignored args key call_id = (refl, (refl, (refl, refl)))

-- A request that was not confirmed goes no further.
unconfirmed :
    {A : Type 0} (args : Fields) (k : Result A) {a : A}
    → (confirmed args >> k) ≡ ok a
    → is_true (get "customer_confirmed" args) ≡ true
unfolding confirmed
unconfirmed args k h = elim (Bool-cases (is_true (get "customer_confirmed" args))) [
  | inl yes_ ↦ yes_
  | inr no_ ↦ absurd (cc (rw no_ at h))
]

after_checks :
    {A : Type 0} (args : Fields) (p : Result String) (r : Result (Unit {0})) (k : String → Result A)
    {a : A}
    → (p >>= λ pnr. r >> (confirmed args >> k pnr)) ≡ ok a
    → is_true (get "customer_confirmed" args) ≡ true
after_checks args (ok pnr) (ok _) k h = unconfirmed args (k pnr) h
after_checks args (ok pnr) (err e) k h = absurd (cc h)
after_checks args (err e) r k h = absurd (cc h)

module _ (repr : Json → String) (derive : String → String → Fields → String) where
  -- The four tools that ask for the yes, each with the request that it is mapped to.
  pub data Mapped (args : Fields) (call_id : String) (request : Fields) : Type 0 where
    cancelled :
        map_cancel_booking repr derive args call_id ≡ ok request → Mapped args call_id request
    paid :
        map_create_payment_session repr derive args call_id ≡ ok request
        → Mapped args call_id request
    modified :
        map_modify_booking repr derive args call_id ≡ ok request → Mapped args call_id request
    removed : map_remove_passenger repr args ≡ ok request → Mapped args call_id request

  -- A tool call is mapped to the cancellation, the modification or the payment of a booking, or to
  -- the removal of a passenger, only if the value `true` itself stands for the customer's yes.
  pub mapped_needs_confirmation :
      (args : Fields) (call_id : String) (request : Fields)
      → Mapped args call_id request
      → is_true (get "customer_confirmed" args) ≡ true
  unfolding map_cancel_booking map_modify_booking map_create_payment_session map_remove_passenger
  mapped_needs_confirmation args call_id request (cancelled h) =
      after_checks args (pnr_of repr args) (require ("verification_token" ∷ []) args)
        (λ pnr. ok (keyed repr derive "cancel_booking" call_id pnr args)) h
  mapped_needs_confirmation args call_id request (paid h) =
      after_checks args (pnr_of repr args) (require ("verification_token" ∷ []) args)
        (λ pnr. ok (keyed repr derive "create_payment_session" call_id pnr args)) h
  mapped_needs_confirmation args call_id request (modified h) =
      after_checks args (pnr_of repr args) (require ("verification_token" ∷ []) args)
        (λ pnr.
          if names_change repr derive args
          then ok (modification repr derive call_id pnr args)
          else err (argument_error "MISSING_ARGUMENT"))
        h
  mapped_needs_confirmation args call_id request (removed h) =
      after_checks args (pnr_of repr args)
        (require ("verification_token" ∷ "booking_passenger_id" ∷ []) args)
        (λ pnr. ok (
          with_token repr pnr args
            (field "booking_passenger_id" (value_of "booking_passenger_id" args) end)))
        h
