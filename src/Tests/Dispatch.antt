-- ===== src/Tests/Dispatch.antt =====
-- Witnesses for the functions that tools are dispatched to.
use vapivoiceassistant.Prelude.{◌≡◌, refl, true, none, some, [], join}
use vapivoiceassistant.Prelude.Dict.{lookup}
use vapivoiceassistant.Prelude.Text.{lower_text, strip, lstrip, rstrip}
use vapivoiceassistant.Errors.{ok, err, type_error}
use vapivoiceassistant.Database.{get_by_pnr}
use vapivoiceassistant.RateLimiter.{is_locked, lock_verdict}
use vapivoiceassistant.RateLimiter.Attempts.{is_open}
use vapivoiceassistant.VerificationService.{lock_key, verify, normal}
use vapivoiceassistant.Auth.Requests.{token_opens}
use vapivoiceassistant.Vapi.Json.{text, Fields, end, field, get}
use vapivoiceassistant.Vapi.Calls.{Backend, token_text}
use vapivoiceassistant.Vapi.Dispatch.{Phrases, Drawn, dispatch_verify_booking_customer}
use vapivoiceassistant.Vapi.Dispatch.Proof.{started, dispatch_verify_booking_customer-opens}
use vapivoiceassistant.Tests.Data.{
  world_of, unpaid_db, booking_with, env, fixed_airline, fixed_payments,
}
use vapivoiceassistant.Tests.People.{hashed, lockout, no_failures}
use vapivoiceassistant.Prelude.{String, ◌↔◌, List, ◌∷◌, ◌==◌, false}
use vapivoiceassistant.Prelude.Dict.{insert}
use vapivoiceassistant.Vapi.WebhookAuth.{
  lowered, after_prefix, extract_presented_secret, is_ascii, verify_webhook_request,
}
use vapivoiceassistant.Vapi.WebhookAuth.Presented.{Presents, verify_webhook_request-Presents}

abbrev phrases : Phrases
phrases = record {
  booking_summary = λ b. b.pnr;
  policy_text = λ b _. b.pnr;
  link_text = λ p. p.id;
  payment_text = λ b _. b.pnr;
}

abbrev drawn : Drawn
drawn = record { token = "fresh"; id = "v1" }

abbrev byron : Fields
byron = field "pnr" (text "ABC234") (field "last_name" (text " byron ") end)

abbrev desk : Backend ((Unit {0}) × (Unit {0}))
desk = record {
  world = world_of unpaid_db (tt, tt);
  verification = record { sessions = []; limits = no_failures };
}

no_token : token_text (get "verification_token" byron) ≡ ok none
unfolding get
no_token = refl

no_contact : token_text (get "email_or_phone" byron) ≡ ok none
unfolding get
no_contact = refl

name_given : token_text (get "last_name" byron) ≡ ok (some " byron ")
unfolding get
name_given = refl

pnr_given : get "pnr" byron ≡ some (text "ABC234")
unfolding get
pnr_given = refl

booking_there : get_by_pnr "ABC234" desk.world.session.working ≡ some (booking_with "UNPAID")
unfolding get_by_pnr
booking_there = refl

name_matches : verify (booking_with "UNPAID") none (some " byron ") ≡ true
unfolding verify normal strip lstrip rstrip lower_text
name_matches = refl

desk_open :
    is_open lockout
      (lock_key (
        started fixed_airline fixed_payments env phrases hashed lockout drawn
          (booking_with "UNPAID")))
      env.now
      no_failures
    ≡ true
unfolding is_locked lookup lock_verdict
desk_open = refl

dispatch_verify_booking_customer-opens_example :
    let x =
      dispatch_verify_booking_customer fixed_airline fixed_payments env phrases hashed lockout drawn
        byron desk in
    (x.0
      ≡ ok (
          join "Verified. verification_token: "
            (join "fresh" (join " — use this for anything else on booking " (join "ABC234" ".")))))
    × (token_opens hashed env.now
          (booking_with "UNPAID")
          "vapi_tool_access"
          (some "fresh")
          x.1.verification
        ≡ true)
dispatch_verify_booking_customer-opens_example =
    dispatch_verify_booking_customer-opens fixed_airline fixed_payments env phrases hashed lockout
      drawn byron (booking_with "UNPAID") none (some " byron ") no_token no_contact name_given
      "ABC234" desk pnr_given booking_there refl desk_open name_matches

abbrev headers : List (String × String)
headers = ("Content-Type", "application/json") ∷ ("Authorization", "Bearer  s3cret") ∷ []

verify_webhook_request-Presents_example :
    (verify_webhook_request headers (some "s3cret")
      ≡ ok (record { authenticated = true; reason = "ok" }))
    ↔ ((s : String) × ((some "s3cret" ≡ some s)
          × (((s == "") ≡ false) × ((is_ascii s ≡ true) × Presents headers s))))
verify_webhook_request-Presents_example = verify_webhook_request-Presents headers (some "s3cret")

bearer_accepted :
    verify_webhook_request headers (some "s3cret")
    ≡ ok (record { authenticated = true; reason = "ok" })
unfolding verify_webhook_request extract_presented_secret lowered after_prefix lower_text strip
    lstrip rstrip lookup insert is_ascii
bearer_accepted = refl

-- A secret that is not ASCII is compared with none.
accent_raises : verify_webhook_request headers (some "sécret") ≡ err type_error
unfolding verify_webhook_request extract_presented_secret lowered after_prefix lower_text strip
    lstrip rstrip lookup insert is_ascii
accent_raises = refl
