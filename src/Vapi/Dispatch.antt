-- ===== src/Vapi/Dispatch.antt =====
-- The functions that the tools of the voice assistant are dispatched to: `_DISPATCH` of
-- apps/api/app/api/routes/vapi.py, for the tools whose requests name a booking. `P` holds the states
-- of an airline and a payment provider; the sentences that say what is in a booking, a policy or a
-- payment, what is drawn, and the functions for the other tools are arguments.
pub mod Proof
use vapivoiceassistant.Prelude.{
  ℕ, String, Bool, true, false, Option, none, some, List, [], ◌∷◌, ◌==◌, join, if◌then◌else◌,
}
use vapivoiceassistant.Errors.{Result, ok, err, Action, pure, attribute_error, value_error}
use vapivoiceassistant.Actions.{◌>>=◌, ◌>>◌}
use vapivoiceassistant.Models.{Booking, Payment}
use vapivoiceassistant.Database.{get_by_pnr}
use vapivoiceassistant.Services.{World, Env}
use vapivoiceassistant.AirlineProvider.{AirlineProvider, CancellationPolicy}
use vapivoiceassistant.PaymentProvider.{PaymentProvider}
use vapivoiceassistant.CancellationService.{BookingCancelRequest, get_policy, cancel}
use vapivoiceassistant.BookingService.{BookingModifyRequest, modify_booking}
use vapivoiceassistant.PassengerService.{remove_passenger}
use vapivoiceassistant.PaymentService.Create.{
  PaymentSessionCreateRequest, Notifier, create_payment_session, get_payment_status,
}
use vapivoiceassistant.RateLimiter.{BackoffLockout}
use vapivoiceassistant.Verification.{
  VerificationStatus, unverified, verification_pending, verified, expired, failed,
}
use vapivoiceassistant.VerificationService.{VerificationSession, VerificationWorld, start, submit}
use vapivoiceassistant.Access.Actor.{CurrentActor}
use vapivoiceassistant.Vapi.Json.{Json, null, bool, num, text, list, dict, Fields, get}
use vapivoiceassistant.Vapi.Calls.{Backend, lift, token_text}

-- A field that the schema of a request wants to be a text; pydantic's error is a `ValueError`.
abbrev pub text_field : Option Json → Result String
text_field (some (text s)) = ok s
text_field none = err value_error
text_field (some null) = err value_error
text_field (some (bool b)) = err value_error
text_field (some (num n)) = err value_error
text_field (some (list xs)) = err value_error
text_field (some (dict fs)) = err value_error

abbrev pub flag_field : Option Json → Result Bool
flag_field (some (bool b)) = ok b
flag_field none = err value_error
flag_field (some null) = err value_error
flag_field (some (text s)) = err value_error
flag_field (some (num n)) = err value_error
flag_field (some (list xs)) = err value_error
flag_field (some (dict fs)) = err value_error

-- A field that may be left out, or null.
abbrev pub optional_text : Option Json → Result (Option String)
optional_text none = ok none
optional_text (some null) = ok none
optional_text (some (text s)) = ok (some s)
optional_text (some (bool b)) = err value_error
optional_text (some (num n)) = err value_error
optional_text (some (list xs)) = err value_error
optional_text (some (dict fs)) = err value_error

-- The sentences that describe what a service returns.
pub record Phrases : Type 0 where
  pub booking_summary : Booking → String
  pub policy_text : Booking → CancellationPolicy → String
  pub link_text : Payment → String
  pub payment_text : Booking → Option Payment → String

-- The token that is drawn, and the id of its row.
pub record Drawn : Type 0 where
  pub token : String
  pub id : String

module _ {P : Type 0} where
  abbrev pub on_world : {X : Type 0} → Action (World P) X → Action (Backend P) X
  on_world m b = let (r, w) = m b.world in (r, record b { world = w })

  abbrev pub on_verification : {X : Type 0} → Action VerificationWorld X → Action (Backend P) X
  on_verification m b = let (r, v) = m b.verification in (r, record b { verification = v })

-- A service that needs the airline alone.
abbrev pub with_airline : {A S X : Type 0} → Action (World A) X → Action (World (A × S)) X
with_airline m w =
    let (r, v) =
      m (record { session = w.session; idempotency = w.idempotency; provider = w.provider.0 }) in
    (
      r,
      record {
        session = v.session;
        idempotency = v.idempotency;
        provider = (v.provider, w.provider.1);
      },
    )

-- A service that needs the payment provider alone.
abbrev pub with_payments : {A S X : Type 0} → Action (World S) X → Action (World (A × S)) X
with_payments m w =
    let (r, v) =
      m (record { session = w.session; idempotency = w.idempotency; provider = w.provider.1 }) in
    (
      r,
      record {
        session = v.session;
        idempotency = v.idempotency;
        provider = (w.provider.0, v.provider);
      },
    )

module _ {A S : Type 0} (airline : AirlineProvider A) (provider : PaymentProvider S) (env : Env)
    (phrases : Phrases) (hash_token : String → String) (lockout : Option BackoffLockout)
    (drawn : Drawn) where
  abbrev pub not_found_text : String
  not_found_text = "I couldn't find a booking with that confirmation number."

  abbrev pub try_again : String → String
  try_again raw = join "That didn't match. You can try again — verification_token: " (join raw ".")

  -- The sentence by the status of the session, and by whether the token may be tried again.
  abbrev pub verification_text : String → Booking → VerificationStatus → String
  verification_text raw booking verified =
      join "Verified. verification_token: "
        (join raw (join " — use this for anything else on booking " (join booking.pnr ".")))
  verification_text raw booking failed =
      "That didn't match our records, and this verification can't be retried — I'll need to transfer you to a human agent."
  verification_text raw booking verification_pending = try_again raw
  verification_text raw booking unverified = try_again raw
  verification_text raw booking expired = try_again raw

  -- `args.get("verification_token") or verification.start(...)`
  abbrev pub token_or_start : Booking → Option String → Action VerificationWorld String
  token_or_start booking (some token) = pure token
  token_or_start booking none =
      start hash_token drawn.token drawn.id env.now booking.id "vapi_tool_access" env.call_id

  abbrev pub verify_found : Fields → Booking → Action VerificationWorld String
  verify_found args booking = do
    given ← lift (token_text (get "verification_token" args))
    raw ← token_or_start booking given
    email_or_phone ← lift (token_text (get "email_or_phone" args))
    last_name ← lift (token_text (get "last_name" args))
    r ← submit hash_token lockout env.now raw booking email_or_phone last_name
    pure (verification_text raw booking r.status)

  abbrev pub verify_booking : Fields → Option Booking → Action (Backend (A × S)) String
  verify_booking args none = pure not_found_text
  verify_booking args (some booking) = on_verification (verify_found args booking)

  abbrev pub booking_named : String → Backend (A × S) → Option Booking
  booking_named pnr b = get_by_pnr pnr b.world.session.working

  -- `_dispatch_verify_booking_customer`. A factor that is not a text raises before the token is
  -- looked up, not after; neither order changes anything.
  unfoldable pub dispatch_verify_booking_customer : Fields → Action (Backend (A × S)) String
  dispatch_verify_booking_customer args = do
    pnr ← lift (text_field (get "pnr" args))
    found ← (λ b. (ok (booking_named pnr b), b))
    verify_booking args found

  abbrev pub summary_of : Option Booking → String
  summary_of none = not_found_text
  summary_of (some booking) = phrases.booking_summary booking

  unfoldable pub dispatch_get_booking : Fields → Action (Backend (A × S)) String
  dispatch_get_booking args = do
    pnr ← lift (text_field (get "pnr" args))
    found ← (λ b. (ok (booking_named pnr b), b))
    pure (summary_of found)

  unfoldable pub dispatch_get_cancellation_policy : Fields → Action (Backend (A × S)) String
  dispatch_get_cancellation_policy args = do
    pnr ← lift (text_field (get "pnr" args))
    (booking, policy) ← on_world (get_policy airline pnr)
    pure (
        if policy.already_cancelled
        then join "Booking " (join booking.pnr " is already cancelled.")
        else phrases.policy_text booking policy)

  unfoldable pub dispatch_cancel_booking : Fields → Action (Backend (A × S)) String
  dispatch_cancel_booking args = do
    pnr ← lift (text_field (get "pnr" args))
    key ← lift (text_field (get "idempotency_key" args))
    confirmed ← lift (flag_field (get "customer_confirmed" args))
    (booking, already_cancelled) ← on_world (
        cancel airline provider env
          (record { pnr = pnr; idempotency_key = key; customer_confirmed = confirmed }))
    pure (
        join "Booking " (
          join booking.pnr
            (if already_cancelled then " was already cancelled." else " has been cancelled.")))

  unfoldable pub dispatch_remove_passenger : Fields → Action (Backend (A × S)) String
  dispatch_remove_passenger args = do
    pnr ← lift (text_field (get "pnr" args))
    id ← lift (text_field (get "booking_passenger_id" args))
    on_world (with_airline (remove_passenger airline env pnr id)) >>= λ _.
        pure (join "Removed that passenger from booking " (join pnr "."))

  unfoldable pub dispatch_get_payment_status : Fields → Action (Backend (A × S)) String
  dispatch_get_payment_status args = do
    pnr ← lift (text_field (get "pnr" args))
    (booking, payment) ← on_world (get_payment_status pnr)
    pure (phrases.payment_text booking payment)

  unfoldable pub dispatch_transfer_to_human : Fields → Action (Backend (A × S)) String
  dispatch_transfer_to_human args =
      pure "Escalation logged. Use the transfer tool now to connect them to a team member."

  unfoldable pub dispatch_modify_booking : Fields → Action (Backend (A × S)) String
  dispatch_modify_booking args = do
    pnr ← lift (text_field (get "pnr" args))
    key ← lift (text_field (get "idempotency_key" args))
    confirmed ← lift (flag_field (get "customer_confirmed" args))
    flight ← lift (optional_text (get "new_flight_id" args))
    email ← lift (optional_text (get "new_contact_email" args))
    phone ← lift (optional_text (get "new_contact_phone" args))
    booking ← on_world (
        with_airline (
          modify_booking airline env (record {
            pnr = pnr;
            idempotency_key = key;
            customer_confirmed = confirmed;
            new_flight_id = flight;
            new_contact_email = email;
            new_contact_phone = phone;
          })))
    pure (join "Updated booking " (join booking.pnr (join ". " (phrases.booking_summary booking))))

  unfoldable pub dispatch_create_payment_session :
      Option Notifier → Fields → Action (Backend (A × S)) String
  dispatch_create_payment_session notifier args = do
    pnr ← lift (text_field (get "pnr" args))
    key ← lift (text_field (get "idempotency_key" args))
    confirmed ← lift (flag_field (get "customer_confirmed" args))
    payment ← on_world (
        with_payments (
          create_payment_session provider notifier env
            (record { pnr = pnr; idempotency_key = key; customer_confirmed = confirmed })))
    pure (phrases.link_text payment)

  -- `_DISPATCH[tool_name]`, with the functions of the other tools.
  unfoldable pub dispatch :
      Option Notifier
      → (String → Fields → CurrentActor → Action (Backend (A × S)) String)
      → String
      → Fields
      → CurrentActor
      → Action (Backend (A × S)) String
  dispatch notifier others name args actor =
      if name == "verify_booking_customer"
      then dispatch_verify_booking_customer args
      else if name == "get_booking"
      then dispatch_get_booking args
      else if name == "get_cancellation_policy"
      then dispatch_get_cancellation_policy args
      else if name == "cancel_booking"
      then dispatch_cancel_booking args
      else if name == "remove_passenger"
      then dispatch_remove_passenger args
      else if name == "modify_booking"
      then dispatch_modify_booking args
      else if name == "create_payment_session"
      then dispatch_create_payment_session notifier args
      else if name == "get_payment_status"
      then dispatch_get_payment_status args
      else if name == "transfer_to_human"
      then dispatch_transfer_to_human args
      else others name args actor
