-- ===== src/Vapi/Calls/Served.antt =====
-- A verified call is dispatched.
use vapivoiceassistant.Prelude.{
  ◌≡◌, refl, ap, ◌∙◌, [], ◌∷◌, String, true, Option, none, some, truthy_text, eq_refl,
}
use vapivoiceassistant.Prelude.Dict.{lookup}
use vapivoiceassistant.Errors.{Result, ok, err, pure}
use vapivoiceassistant.Actions.{◌>>=◌, ◌>>◌}
use vapivoiceassistant.Models.{Booking, ToolExecution}
use vapivoiceassistant.Database.{get_by_pnr}
use vapivoiceassistant.Access.Actor.{CurrentActor, has_valid_booking_verification}
use vapivoiceassistant.Access.VapiTools.{
  ToolEntry, requires_verified_booking, tool_authorization_matrix, authorize_vapi_tool_call,
}
use vapivoiceassistant.Access.VapiTools.Laws.{assistant_access}
use vapivoiceassistant.Auth.Requests.{redeem_verification_token, token_opens, upgraded}
use vapivoiceassistant.RateLimiter
use vapivoiceassistant.RateLimiter.{InMemoryRateLimitStore}
use vapivoiceassistant.Vapi.Json.{Fields, get}
use vapivoiceassistant.Vapi.Arguments.{pnr_text}
use vapivoiceassistant.Vapi.Arguments.Search.{parse_tool_call_arguments, map_arguments}
use vapivoiceassistant.Vapi.Tools.{VapiToolSchema, vapi_tool_schemas}
use vapivoiceassistant.Vapi.Calls.{
  result, ToolCall, Channel, Backend, Attempt, run_tool, executions, set_executions, save_log,
  claim, or_kept, upsert, VoiceEnv, get_by_vapi_tool_call_id, token_text, on_log, by_schema,
  decided, wants_booking, with_token, caught, start_log, attempt, base_vapi_actor,
  handle_one_tool_call, tool_rate_limiter, tool_rate_limit_key, note_key,
}
use vapivoiceassistant.Vapi.Calls.Verified.{counted_by, token_opens-counted, get_by_pnr-claimed}

module _ {P : Type 0} (channel : Channel P) (env : VoiceEnv) (call : ToolCall) (raw : Fields)
    (booking : Booking) (token : Option String) (mapped : Fields) where
  -- The assistant, verified for the booking.
  abbrev pub verified_caller : CurrentActor
  verified_caller = upgraded booking "vapi_tool_access" (base_vapi_actor channel env call.id)

  admitted :
      (e : ToolEntry)
      → lookup call.name tool_authorization_matrix ≡ some e
      → e.sensitivity ≡ requires_verified_booking
      → (authorize_vapi_tool_call verified_caller call.name
          (some booking.id)
          (some booking.customer_id)).allowed
        ≡ true
  unfolding has_valid_booking_verification
  admitted e found guarded =
      assistant_access verified_caller call.name e (some booking.id) (some booking.customer_id) refl
        refl refl found
      ∙ rw (guarded, eq_refl booking.id) refl

  redeemed :
      (v : Backend P)
      → token_opens channel.hash_token env.now booking "vapi_tool_access"
          (truthy_text token)
          v.verification
        ≡ true
      → redeem_verification_token channel.hash_token env.now
          (base_vapi_actor channel env call.id)
          booking
          "vapi_tool_access"
          token
          v.verification
        ≡ verified_caller
  unfolding redeem_verification_token
  redeemed v opened = rw opened refl

  spoken_backend :
      (r : Result String) (l : ToolExecution) (b : Backend P) (a : Attempt P)
      → (caught channel env call (
          ((λ a. (r, record a { log = l; backend = b })) >>= λ spoken.
          on_log channel env (λ l. record l { outcome = some "success" })
          >> pure (result call.id spoken))
            a)).1.backend
        ≡ b
  spoken_backend (ok t) l b a = refl
  spoken_backend (err e) l b a = refl

  module _ (s : VapiToolSchema) (registered : lookup call.name vapi_tool_schemas ≡ some s)
      (ready : s.implemented ≡ true)
      (request : map_arguments channel.repr channel.int_of channel.derive call.name env.call_id raw
        ≡ ok mapped) where
    -- What the tool leaves of the services.
    abbrev pub tool_end : CurrentActor → Backend P → Backend P
    tool_end actor b = (channel.dispatch call.name mapped actor b).1

    -- What the tool leaves, run with the row of the call in the state that the handler flushes.
    abbrev run_end : CurrentActor → Attempt P → Backend P
    run_end actor a = tool_end actor (
        save_log
          (note_key (get "idempotency_key" mapped)
            (record a.log { authorization_result = "allowed" }))
          a.backend)

    schema_served :
        (actor : CurrentActor) (a : Attempt P)
        → (caught channel env call (by_schema channel env call raw actor (some s) a)).1.backend
          ≡ tool_end actor (save_log (note_key (get "idempotency_key" mapped) a.log) a.backend)
    schema_served actor a =
        let noted : Attempt P = record a { log = note_key (get "idempotency_key" mapped) a.log } in
        let (r, x) = run_tool channel env (channel.dispatch call.name mapped actor) noted in
        rw (ready, request) (spoken_backend r x.log x.backend noted)

    decided_served :
        (actor : CurrentActor) (a : Attempt P)
        → (authorize_vapi_tool_call actor call.name
            (some booking.id)
            (some booking.customer_id)).allowed
          ≡ true
        → (caught channel env call (
            decided channel env call raw actor
              (authorize_vapi_tool_call actor call.name
                (some booking.id)
                (some booking.customer_id))
              a)).1.backend
          ≡ run_end actor a
    decided_served actor a allowed =
        rw (allowed, registered)
          (schema_served actor
            (record a { log = record a.log { authorization_result = "allowed" } }))

    token_served :
        (e : ToolEntry) (a : Attempt P)
        → lookup call.name tool_authorization_matrix ≡ some e
        → e.sensitivity ≡ requires_verified_booking
        → token_opens channel.hash_token env.now booking "vapi_tool_access"
            (truthy_text token)
            a.backend.verification
          ≡ true
        → (caught channel env call (with_token channel env call raw booking (ok token) a)).1.backend
          ≡ run_end verified_caller a
    token_served e a found guarded opened =
        rw (redeemed a.backend opened) (decided_served verified_caller a (admitted e found guarded))

    parsed_served :
        (e : ToolEntry) (a : Attempt P)
        → parse_tool_call_arguments channel.loads call.arguments ≡ ok raw
        → wants_booking channel env call raw ≡ true
        → get_by_pnr (pnr_text channel.repr raw) a.backend.world.session.working ≡ some booking
        → token_text (get "verification_token" raw) ≡ ok token
        → lookup call.name tool_authorization_matrix ≡ some e
        → e.sensitivity ≡ requires_verified_booking
        → token_opens channel.hash_token env.now booking "vapi_tool_access"
            (truthy_text token)
            a.backend.verification
          ≡ true
        → (caught channel env call (attempt channel env call a)).1.backend
          ≡ run_end verified_caller
              (record a { log = record a.log { arguments_redacted = channel.redact raw } })
    parsed_served e a parsed wanted there shown found guarded opened =
        rw (parsed, wanted, there, shown)
          (token_served e
            (record a { log = record a.log { arguments_redacted = channel.redact raw } }) found
            guarded opened)

    -- The row of the call as it is when the tool is run.
    abbrev pub served_log : ToolExecution
    served_log = record {
      call_id = env.call_pk;
      vapi_tool_call_id = call.id;
      tool_name = call.name;
      arguments_redacted = channel.redact raw;
      authorization_result = "allowed";
      denial_reason = none;
      outcome = none;
      error_code = none;
      idempotency_key = or_kept (get "idempotency_key" mapped) none;
    }

    flushed :
        (limits : InMemoryRateLimitStore) (b : Backend P)
        → tool_end verified_caller
            (save_log served_log (counted_by limits (claim channel env call none b)))
          ≡ tool_end verified_caller
              (counted_by limits (set_executions (served_log ∷ executions b) b))
    unfolding upsert
    flushed limits b = rw (eq_refl call.id) refl

    -- A tool that needs a verified booking, with arguments that name a booking, carry a token that
    -- opens it, and are mapped to a request; the call is a new one and within the limit. The tool is
    -- run exactly once, in the name of an assistant verified for that booking, with the row of the
    -- call in the open transaction; and what it leaves of the services is, the open rows of tool
    -- executions aside, what the call leaves.
    pub handle_one_tool_call-serves :
        (e : ToolEntry) (b : Backend P)
        → get_by_vapi_tool_call_id call.id (executions b) ≡ none
        → (vapivoiceassistant.RateLimiter.check tool_rate_limiter
            (tool_rate_limit_key env.call_id)
            env.now
            b.verification.limits).0.allowed
          ≡ true
        → parse_tool_call_arguments channel.loads call.arguments ≡ ok raw
        → wants_booking channel env call raw ≡ true
        → get_by_pnr (pnr_text channel.repr raw) b.world.session.working ≡ some booking
        → token_text (get "verification_token" raw) ≡ ok token
        → lookup call.name tool_authorization_matrix ≡ some e
        → e.sensitivity ≡ requires_verified_booking
        → token_opens channel.hash_token env.now booking "vapi_tool_access"
            (truthy_text token)
            b.verification
          ≡ true
        → let limits =
            (vapivoiceassistant.RateLimiter.check tool_rate_limiter
              (tool_rate_limit_key env.call_id)
              env.now
              b.verification.limits).1 in
          set_executions [] (handle_one_tool_call channel env call b).1
          ≡ set_executions [] (
              tool_end verified_caller
                (counted_by limits (set_executions (served_log ∷ executions b) b)))
    unfolding handle_one_tool_call
    handle_one_tool_call-serves e b new within parsed wanted there shown found guarded opened =
        let limits =
          (vapivoiceassistant.RateLimiter.check tool_rate_limiter (tool_rate_limit_key env.call_id)
            env.now b.verification.limits).1 in
        let a : Attempt P = record {
          log = start_log channel env call none;
          backend = counted_by limits (claim channel env call none b);
        } in
        rw (new, within)
          (ap (set_executions []) (
            parsed_served e a parsed wanted
              (get_by_pnr-claimed channel env call e found guarded (pnr_text channel.repr raw) b
                ∙ there)
              shown found guarded
              (token_opens-counted channel env limits b booking (truthy_text token) ∙ opened)
            ∙ flushed limits b))
