-- ===== src/Vapi/Calls/Verified.antt =====
-- A tool that needs a verified booking does nothing without a token that opens the booking.
use vapivoiceassistant.Prelude.{◌≡◌, refl, String, Bool, false, Option, none, some, truthy_text}
use vapivoiceassistant.Prelude.Dict.{lookup}
use vapivoiceassistant.Errors.{Result, ok, err, Action}
use vapivoiceassistant.Models.{Booking}
use vapivoiceassistant.Database.{get_by_pnr}
use vapivoiceassistant.Access.VapiTools.{
  ToolEntry, requires_verified_booking, tool_authorization_matrix,
}
use vapivoiceassistant.VerificationService.{check}
use vapivoiceassistant.Auth.Requests.{token_opens}
use vapivoiceassistant.RateLimiter
use vapivoiceassistant.RateLimiter.{InMemoryRateLimitStore}
use vapivoiceassistant.Vapi.Json.{Fields, get}
use vapivoiceassistant.Vapi.Arguments.{pnr_text}
use vapivoiceassistant.Vapi.Calls.{
  ToolResult, ToolCall, Channel, Backend, Attempt, claim, VoiceEnv, token_text, caught,
}

-- The arguments name a booking that is there, and come with a token that opens it.
abbrev pub opens :
    {P : Type 0}
    → Channel P
    → VoiceEnv
    → Fields
    → Booking
    → Result (Option String)
    → Backend P
    → Bool
opens channel env raw booking (err e) b = false
opens channel env raw booking (ok token) b =
    token_opens channel.hash_token env.now booking "vapi_tool_access" (truthy_text token)
      b.verification

abbrev pub opens_found :
    {P : Type 0} → Channel P → VoiceEnv → Fields → Option Booking → Backend P → Bool
opens_found channel env raw none b = false
opens_found channel env raw (some booking) b =
    opens channel env raw booking (token_text (get "verification_token" raw)) b

abbrev pub presents_token : {P : Type 0} → Channel P → VoiceEnv → Result Fields → Backend P → Bool
presents_token channel env (err e) b = false
presents_token channel env (ok raw) b =
    opens_found channel env raw (get_by_pnr (pnr_text channel.repr raw) b.world.session.working) b

-- What the limiter counts makes no difference to a token.
abbrev pub counted_by : {P : Type 0} → InMemoryRateLimitStore → Backend P → Backend P
counted_by limits b = record b { verification = record b.verification { limits = limits } }

module _ {P : Type 0} (channel : Channel P) (env : VoiceEnv) (limits : InMemoryRateLimitStore)
    (b : Backend P) where
  pub token_opens-counted :
      (booking : Booking) (token : Option String)
      → token_opens channel.hash_token env.now booking "vapi_tool_access" token
          (counted_by limits b).verification
        ≡ token_opens channel.hash_token env.now booking "vapi_tool_access" token b.verification
  unfolding check
  token_opens-counted booking none = refl
  token_opens-counted booking (some t) = refl

module _ {P : Type 0} (channel : Channel P) (env : VoiceEnv) (call : ToolCall) (e : ToolEntry)
    (found : lookup call.name tool_authorization_matrix ≡ some e)
    (guarded : e.sensitivity ≡ requires_verified_booking) where
  -- What a step leaves of the services, exceptions caught.
  abbrev After : Action (Attempt P) ToolResult → Attempt P → Backend P
  After m a = (caught channel env call (m a)).1.backend

  pub get_by_pnr-claimed :
      (pnr : String) (b : Backend P)
      → get_by_pnr pnr (claim channel env call none b).world.session.working
        ≡ get_by_pnr pnr b.world.session.working
  unfolding get_by_pnr
  get_by_pnr-claimed pnr b = refl
