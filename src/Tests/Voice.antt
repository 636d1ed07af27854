-- ===== src/Tests/Voice.antt =====
-- Witnesses for the arguments of tool calls.
use vapivoiceassistant.Prelude.{ℕ, suc, String, ◌≡◌, refl, true, join, none, some, []}
use vapivoiceassistant.Prelude.Dict.{lookup}
use vapivoiceassistant.Prelude.Text.{codes, upper_text, strip, lstrip, rstrip}
use vapivoiceassistant.Errors.{ok}
use vapivoiceassistant.Database.{get_by_pnr}
use vapivoiceassistant.Access.VapiTools.{
  ToolEntry, requires_verified_booking, tool_authorization_matrix,
}
use vapivoiceassistant.VerificationService.{check, get_by_token_hash}
use vapivoiceassistant.Vapi.Json.{Json, bool, text, dict, Fields, end, field, get, is_true}
use vapivoiceassistant.Vapi.Arguments.{require, confirmed, pnr_of, map_cancel_booking}
use vapivoiceassistant.Vapi.Arguments.Laws.{Mapped, cancelled, mapped_needs_confirmation}
use vapivoiceassistant.Vapi.Arguments.Search.{parse_tool_call_arguments}
use vapivoiceassistant.Vapi.Calls.{
  Channel, VoiceEnv, ToolCall, Backend, executions, set_executions, handle_one_tool_call,
}
use vapivoiceassistant.Models.{ToolExecution}
use vapivoiceassistant.Tests.Data.{world_of, unpaid_db}
use vapivoiceassistant.Prelude.{◌∷◌, contains, truthy_text}
use vapivoiceassistant.RateLimiter
use vapivoiceassistant.RateLimiter.{advance_window, get_window, verdict}
use vapivoiceassistant.Verification.{verified, is_usable, scoped_to}
use vapivoiceassistant.VerificationService.{VerificationSession, to_state}
use vapivoiceassistant.Auth.Requests.{token_opens}
use vapivoiceassistant.Vapi.Tools.{VapiToolSchema, vapi_tool_schemas}
use vapivoiceassistant.Vapi.Arguments.{pnr_text}
use vapivoiceassistant.Vapi.Arguments.Search.{map_arguments}
use vapivoiceassistant.Vapi.Calls.{
  tool_rate_limiter, tool_rate_limit_key, wants_booking, token_text, get_by_vapi_tool_call_id,
}
use vapivoiceassistant.Vapi.Calls.Verified.{counted_by}
use vapivoiceassistant.Vapi.Calls.Served.{verified_caller, handle_one_tool_call-serves}
use vapivoiceassistant.Tests.Data.{booking_with}

abbrev repr : Json → String
repr _ = "other"

abbrev derive : String → String → Fields → String
derive call_id operation payload = join call_id operation

abbrev spoken : Fields
spoken =
    field "pnr" (text " abc234 ")
      (field "verification_token" (text "token-1") (field "customer_confirmed" (bool true) end))

abbrev cancellation : Fields
cancellation = field "pnr" (text "ABC234") (
    field "idempotency_key" (text "call-1cancel_booking")
      (field "customer_confirmed" (bool true) (field "verification_token" (text "token-1") end)))

spoken-Mapped : Mapped repr derive spoken "call-1" cancellation
unfolding map_cancel_booking pnr_of require confirmed get codes upper_text strip lstrip rstrip
spoken-Mapped = cancelled refl

mapped_needs_confirmation_example : is_true (get "customer_confirmed" spoken) ≡ true
mapped_needs_confirmation_example =
    mapped_needs_confirmation repr derive spoken "call-1" cancellation spoken-Mapped

-- A provider that counts what it is asked to do, behind every tool.
abbrev counting : Channel ℕ
counting = record {
  hash_token = λ s. join "h:" s;
  loads = λ _. none;
  repr = repr;
  int_of = λ v. ok v;
  derive = derive;
  redact = λ _. end;
  message = λ _. "That did not work.";
  dispatch = λ _ _ _ b.
      (ok "Done.", record b { world = record b.world { provider = suc b.world.provider } });
}

abbrev phone : ℕ → VoiceEnv
phone now = record { now = now; call_id = "call-1"; call_pk = "p1"; assistant_id = none }

abbrev cancel_call : ToolCall
cancel_call = record { id = "tc1"; name = "cancel_booking"; arguments = some (dict spoken) }

abbrev idle : Backend ℕ
idle = record {
  world = world_of unpaid_db 0;
  verification = record { sessions = []; limits = record { windows = []; failures = [] } };
}

-- Something else is done with the provider before the call is delivered again.
abbrev busy : Backend ℕ → Backend ℕ
busy b = record b { world = record b.world { provider = suc b.world.provider } }

abbrev cancel_entry : ToolEntry
cancel_entry = record { sensitivity = requires_verified_booking; permission = "bookings.cancel" }

cancel_guarded : lookup "cancel_booking" tool_authorization_matrix ≡ some cancel_entry
unfolding lookup
cancel_guarded = refl

abbrev spoken_token : VerificationSession
spoken_token = record {
  id = "v1";
  call_id = some "call-1";
  booking_id = "b1";
  purpose = "vapi_tool_access";
  token_hash = "h:token-1";
  status = verified;
  attempts = 1;
  expires_at = 2000;
  verified_at = some 900;
  created_at = 800;
}

abbrev known : Backend ℕ
known = record idle { verification = record idle.verification { sessions = spoken_token ∷ [] } }

abbrev cancel_schema : VapiToolSchema
cancel_schema = record { mutates = true; requires_confirmation = true; implemented = true }

cancel_registered : lookup "cancel_booking" vapi_tool_schemas ≡ some cancel_schema
unfolding lookup
cancel_registered = refl

cancel_request :
    map_arguments counting.repr counting.int_of counting.derive "cancel_booking" "call-1" spoken
    ≡ ok cancellation
unfolding map_arguments map_cancel_booking pnr_of require confirmed get codes upper_text strip
    lstrip rstrip
cancel_request = refl

within_limit :
    (RateLimiter.check tool_rate_limiter
      (tool_rate_limit_key "call-1")
      1000
      known.verification.limits).0.allowed
    ≡ true
unfolding RateLimiter.check advance_window get_window verdict lookup
within_limit = refl

parsed : parse_tool_call_arguments counting.loads cancel_call.arguments ≡ ok spoken
unfolding parse_tool_call_arguments
parsed = refl

wanted : wants_booking counting (phone 1000) cancel_call spoken ≡ true
unfolding contains get
wanted = refl

named_booking :
    get_by_pnr (pnr_text counting.repr spoken) known.world.session.working
    ≡ some (booking_with "UNPAID")
unfolding get_by_pnr get codes upper_text strip lstrip rstrip
named_booking = refl

shown : token_text (get "verification_token" spoken) ≡ ok (some "token-1")
unfolding get
shown = refl

token_opens_booking :
    token_opens counting.hash_token 1000
      (booking_with "UNPAID")
      "vapi_tool_access"
      (truthy_text (some "token-1"))
      known.verification
    ≡ true
unfolding check get_by_token_hash to_state is_usable scoped_to
token_opens_booking = refl

not_seen : get_by_vapi_tool_call_id "tc1" (executions known) ≡ none
unfolding get_by_vapi_tool_call_id
not_seen = refl

abbrev flushed_row : ToolExecution
flushed_row = record {
  call_id = "p1";
  vapi_tool_call_id = "tc1";
  tool_name = "cancel_booking";
  arguments_redacted = end;
  authorization_result = "allowed";
  denial_reason = none;
  outcome = none;
  error_code = none;
  idempotency_key = some "call-1cancel_booking";
}

handle_one_tool_call-serves_example :
    let limits =
      (RateLimiter.check tool_rate_limiter
        (tool_rate_limit_key "call-1")
        1000
        known.verification.limits).1 in
    set_executions [] (handle_one_tool_call counting (phone 1000) cancel_call known).1
    ≡ set_executions []
        (counting.dispatch "cancel_booking" cancellation
          (verified_caller counting
            (phone 1000)
            cancel_call
            spoken
            (booking_with "UNPAID")
            (some "token-1")
            cancellation)
          (counted_by limits (set_executions (flushed_row ∷ []) known))).1
handle_one_tool_call-serves_example =
    handle_one_tool_call-serves counting (phone 1000) cancel_call spoken (booking_with "UNPAID")
      (some "token-1") cancellation cancel_schema cancel_registered refl cancel_request cancel_entry
      known not_seen within_limit parsed wanted named_booking shown cancel_guarded refl
      token_opens_booking
