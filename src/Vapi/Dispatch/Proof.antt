-- ===== src/Vapi/Dispatch/Proof.antt =====
-- What a caller proves by voice: the dispatch of `verify_booking_customer`, and the token after it.
use vapivoiceassistant.Prelude.{
  ◌+◌, ◌≡◌, refl, ap, ◌∙◌, String, true, false, ◌||◌, Option, none, some, ◌∷◌, ◌==◌, any, eq_refl,
  arith, join,
}
use vapivoiceassistant.Errors.{ok, Action, pure}
use vapivoiceassistant.Actions.{◌>>=◌}
use vapivoiceassistant.Models.{Booking}
use vapivoiceassistant.Database.{get_by_pnr}
use vapivoiceassistant.Services.{Env}
use vapivoiceassistant.AirlineProvider.{AirlineProvider}
use vapivoiceassistant.PaymentProvider.{PaymentProvider}
use vapivoiceassistant.RateLimiter.{BackoffLockout}
use vapivoiceassistant.RateLimiter.Attempts.{is_open}
use vapivoiceassistant.Verification.{verification_pending, verified, default_ttl}
use vapivoiceassistant.VerificationService.{
  VerificationSession, VerificationWorld, start, submit, check, verify, add_session,
  get_by_token_hash, lock_key,
}
use vapivoiceassistant.VerificationService.Opens.{submit-check, submit-verified}
use vapivoiceassistant.Auth.Requests.{token_opens}
use vapivoiceassistant.Vapi.Json.{text, Fields, get}
use vapivoiceassistant.Vapi.Calls.{Backend, lift, token_text}
use vapivoiceassistant.Vapi.Dispatch.{
  Phrases, Drawn, verification_text, verify_found, dispatch_verify_booking_customer,
}

-- A step that returns hands on its result and its state.
after_ok :
    {S A B : Type 0} (m : Action S A) (k : A → Action S B) (v : S) {a : A} {u : S}
    → m v ≡ (ok a, u)
    → (m >>= k) v ≡ k a u
after_ok m k v {a} {u} h = ap (λ x. ((λ (_ : _). x) >>= k) v) h

module _ {A S : Type 0} (airline : AirlineProvider A) (provider : PaymentProvider S) (env : Env)
    (phrases : Phrases) (hash_token : String → String) (lockout : Option BackoffLockout)
    (drawn : Drawn) where
  -- The row of a verification that is started for the booking.
  abbrev pub started : Booking → VerificationSession
  started booking = record {
    id = drawn.id;
    call_id = env.call_id;
    booking_id = booking.id;
    purpose = "vapi_tool_access";
    token_hash = hash_token drawn.token;
    status = verification_pending;
    attempts = 0;
    expires_at = env.now + default_ttl;
    verified_at = none;
    created_at = env.now;
  }

  abbrev pub with_started : Booking → VerificationWorld → VerificationWorld
  with_started booking v = record v { sessions = started booking ∷ v.sessions }

  start-started :
      (booking : Booking) (v : VerificationWorld)
      → any (λ q. q.token_hash == hash_token drawn.token || q.id == drawn.id) v.sessions ≡ false
      → start hash_token drawn.token drawn.id env.now booking.id "vapi_tool_access" env.call_id v
        ≡ (ok drawn.token, with_started booking v)
  unfolding start add_session
  start-started booking v new =
      after_ok (add_session (started booking)) (λ _. pure drawn.token) v (rw new refl)

  started_found :
      (booking : Booking) (v : VerificationWorld)
      → get_by_token_hash (hash_token drawn.token) (with_started booking v).sessions
        ≡ some (started booking)
  unfolding get_by_token_hash
  started_found booking v = rw (eq_refl (hash_token drawn.token)) refl

  module _ (args : Fields) (booking : Booking) (email_or_phone last_name : Option String)
      (untried : token_text (get "verification_token" args) ≡ ok none)
      (first : token_text (get "email_or_phone" args) ≡ ok email_or_phone)
      (second : token_text (get "last_name" args) ≡ ok last_name) where
    -- The part of the function after the token is known.
    abbrev submit_factors : String → Action VerificationWorld String
    submit_factors raw = do
      given ← lift (token_text (get "email_or_phone" args))
      name ← lift (token_text (get "last_name" args))
      r ← submit hash_token lockout env.now raw booking given name
      pure (
          verification_text airline provider env phrases hash_token lockout drawn raw booking
            r.status)

    -- The caller is verified: the sentence that is spoken, and the state of the submission.
    verify_found-verified :
        (v : VerificationWorld)
        → any (λ q. q.token_hash == hash_token drawn.token || q.id == drawn.id) v.sessions ≡ false
        → is_open lockout (lock_key (started booking)) env.now v.limits ≡ true
        → verify booking email_or_phone last_name ≡ true
        → verify_found airline provider env phrases hash_token lockout drawn args booking v ≡ (
          ok (
              verification_text airline provider env phrases hash_token lockout drawn drawn.token
                booking verified),
          (submit hash_token lockout env.now drawn.token booking email_or_phone last_name
              (with_started booking v)).1,
        )
    verify_found-verified v new free matched = rw untried (
        after_ok
          (start hash_token drawn.token drawn.id env.now booking.id "vapi_tool_access" env.call_id)
          submit_factors v (start-started booking v new)
        ∙ rw (first, second)
            (after_ok
              (submit hash_token lockout env.now drawn.token booking email_or_phone last_name)
              (λ r. pure (
                verification_text airline provider env phrases hash_token lockout drawn drawn.token
                  booking r.status))
              (with_started booking v)
              (ap
                (λ r. (
                  r,
                  (submit hash_token lockout env.now drawn.token booking email_or_phone last_name
                      (with_started booking v)).1,
                ))
                (submit-verified hash_token lockout env.now drawn.token booking email_or_phone
                  last_name (with_started booking v) (started booking) (started_found booking v)
                  refl (omega arith) free matched))))

    verify_found-opens :
        (v : VerificationWorld)
        → any (λ q. q.token_hash == hash_token drawn.token || q.id == drawn.id) v.sessions ≡ false
        → is_open lockout (lock_key (started booking)) env.now v.limits ≡ true
        → verify booking email_or_phone last_name ≡ true
        → check hash_token env.now drawn.token booking.id "vapi_tool_access"
            (verify_found airline provider env phrases hash_token lockout drawn args booking v).1
          ≡ true
    verify_found-opens v new free matched = rw (verify_found-verified v new free matched) (
        submit-check hash_token lockout env.now drawn.token booking email_or_phone last_name
          (with_started booking v) (started booking) (started_found booking v) refl (omega arith)
          free matched)

    -- A caller asks by voice to be verified for a booking, for the first time and with factors of that
    -- booking; the token that is drawn is a new one, and the booking is not locked. The caller is told
    -- the token and the booking it is for, and after the call the token opens the booking for the tools
    -- of the assistant.
    pub dispatch_verify_booking_customer-opens :
        (pnr : String) (b : Backend (A × S))
        → get "pnr" args ≡ some (text pnr)
        → get_by_pnr pnr b.world.session.working ≡ some booking
        → any
            (λ q. q.token_hash == hash_token drawn.token || q.id == drawn.id)
            b.verification.sessions
          ≡ false
        → is_open lockout (lock_key (started booking)) env.now b.verification.limits ≡ true
        → verify booking email_or_phone last_name ≡ true
        → let x =
            dispatch_verify_booking_customer airline provider env phrases hash_token lockout drawn
              args b in
          (x.0
            ≡ ok (
                join "Verified. verification_token: " (
                  join drawn.token
                    (join " — use this for anything else on booking " (join booking.pnr ".")))))
          × (token_opens hash_token env.now booking "vapi_tool_access"
                (some drawn.token)
                x.1.verification
              ≡ true)
    unfolding dispatch_verify_booking_customer
    dispatch_verify_booking_customer-opens pnr b named there new free matched =
        rw (named, there)
          (
            ap (λ x. x.0) (verify_found-verified b.verification new free matched),
            verify_found-opens b.verification new free matched,
          )
