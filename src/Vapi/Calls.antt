-- ===== src/Vapi/Calls.antt =====
-- One tool call of the voice assistant: `_handle_one_tool_call` of apps/api/app/api/routes/vapi.py,
-- with the repository of models/tool_execution.py. The functions that the tools are dispatched to are
-- an argument, an action on the services; so are the redaction of arguments and the texts that
-- exceptions carry. Left out is the time that a call takes, which no row has here.
pub mod Rows
pub mod Once
pub mod Verified
pub mod Served
use vapivoiceassistant.Prelude.{
  ℕ, String, Bool, true, false, ◌&&◌, Option, none, some, List, [], ◌∷◌, ◌==◌, contains, find,
  change, is_some, join, or_default, truthy_text, if◌then◌else◌,
}
use vapivoiceassistant.Prelude.Dict.{Dict, lookup}
use vapivoiceassistant.Errors.{
  Error, not_found_error, validation_failed_error, conflict_error, verification_failed_error,
  payment_provider_error, provider_error, auth_error, argument_error, integrity_error, key_error,
  attribute_error, runtime_error, value_error, arithmetic_error, type_error, Result, ok, err,
  Action, pure, raise,
}
use vapivoiceassistant.Actions.{◌>>=◌, ◌>>◌, update}
use vapivoiceassistant.Models.{Booking, ToolExecution}
use vapivoiceassistant.Database.{get_by_pnr}
use vapivoiceassistant.Services.{World}
use vapivoiceassistant.RateLimiter.{FixedWindowRateLimiter, InMemoryRateLimitStore}
use vapivoiceassistant.VerificationService.{VerificationWorld}
use vapivoiceassistant.Access.Actor.{vapi_agent, CurrentActor}
use vapivoiceassistant.Access.Ownership.{AuthDecision}
use vapivoiceassistant.Access.VapiTools.{vapi_assistant_permissions, authorize_vapi_tool_call}
use vapivoiceassistant.Auth.Requests.{anonymous, redeem_verification_token}
use vapivoiceassistant.Vapi.Json.{
  Json, null, bool, num, text, list, dict, Fields, end, get, is_truthy, or_null,
}
use vapivoiceassistant.Vapi.Arguments.{pnr_text}
use vapivoiceassistant.Vapi.Arguments.Search.{parse_tool_call_arguments, map_arguments}
use vapivoiceassistant.Vapi.Tools.{VapiToolSchema, vapi_tool_schemas, pnr_tools}
use vapivoiceassistant.RateLimiter

-- `{"toolCallId": id, "result": text}` and `{"toolCallId": id, "error": text}`
pub data ToolResult : Type 0 where
  result : String → String → ToolResult
  error : String → String → ToolResult

-- An element of `toolCallList`, with the id that is made for it if it has none.
pub record ToolCall : Type 0 where
  pub id : String
  pub name : String
  pub arguments : Option Json

-- What the services work on, with `P` the state of the providers.
pub record Backend (P : Type 0) : Type 0 where
  pub world : World P
  pub verification : VerificationWorld

-- A call under way: its row, and what the services have done.
pub record Attempt (P : Type 0) : Type 0 where
  pub log : ToolExecution
  pub backend : Backend P

-- The rows of tool executions, as the open transaction sees them.
abbrev pub executions : {P : Type 0} → Backend P → List ToolExecution
executions b = b.world.session.working.tool_executions

abbrev pub set_rows : {P : Type 0} → List ToolExecution → World P → World P
set_rows rows w = record w {
  session = record w.session { working = record w.session.working { tool_executions = rows } };
}

abbrev pub set_executions : {P : Type 0} → List ToolExecution → Backend P → Backend P
set_executions rows b = record b { world = set_rows rows b.world }

-- The phone call that the tool call is a part of.
pub record VoiceEnv : Type 0 where
  pub now : ℕ
  pub call_id : String
  pub call_pk : String
  pub assistant_id : Option String

-- `_AUTH_DENIAL_MESSAGES`, and the default beside it.
abbrev pub auth_denial_messages : Dict String
auth_denial_messages =
    ("AUTHENTICATION_REQUIRED", "I wasn't able to authenticate that request.")
    ∷ (
      "BOOKING_VERIFICATION_REQUIRED",
      "I need to verify the booking first — could you give me the confirmation number and either the email or phone on the booking, or a passenger's last name?",
    )
    ∷ ("PERMISSION_DENIED", "I'm not able to do that.")
    ∷ ("FORBIDDEN", "I'm not able to do that.")
    ∷ []

abbrev pub denial_message : Option String → String
denial_message code =
    or_default (lookup (or_default code "") auth_denial_messages) "I'm not able to do that."

-- `ToolExecutionRepository.get_by_vapi_tool_call_id`
unfoldable pub get_by_vapi_tool_call_id : String → List ToolExecution → Option ToolExecution
get_by_vapi_tool_call_id id rows = find (λ r. r.vapi_tool_call_id == id) rows

-- The profile "vapi_tool" of the rate limiter.
abbrev pub tool_rate_limiter : FixedWindowRateLimiter
tool_rate_limiter = record { limit = 60; window_seconds = 60 }

abbrev pub tool_rate_limit_key : String → String
tool_rate_limit_key call_id = join "vapi_tool:" call_id

-- `exc.code` of an exception with a message that may be spoken, and of any other.
abbrev pub spoken_code : Error → Option String
spoken_code (not_found_error c) = some c
spoken_code (validation_failed_error c) = some c
spoken_code (conflict_error c) = some c
spoken_code (verification_failed_error c) = some c
spoken_code (payment_provider_error c) = some c
spoken_code (provider_error c) = some c
spoken_code (auth_error c) = some c
spoken_code (argument_error c) = some c
spoken_code integrity_error = none
spoken_code key_error = none
spoken_code attribute_error = none
spoken_code runtime_error = none
spoken_code value_error = none
spoken_code arithmetic_error = none
spoken_code type_error = none

-- The token as it is hashed: what is not a text has no `encode`.
abbrev pub token_text : Option Json → Result (Option String)
token_text none = ok none
token_text (some (text s)) = ok (truthy_text (some s))
token_text (some null) = ok none
token_text (some (bool b)) = if b then err attribute_error else ok none
token_text (some (num n)) = if is_truthy (some (num n)) then err attribute_error else ok none
token_text (some (list xs)) = if is_truthy (some (list xs)) then err attribute_error else ok none
token_text (some (dict fs)) = if is_truthy (some (dict fs)) then err attribute_error else ok none

abbrev pub lift : {S A : Type 0} → Result A → Action S A
lift r s = (r, s)

-- The key of the request, if it has one; a key is a text.
abbrev pub or_kept : Option Json → Option String → Option String
or_kept (some (text s)) kept = some s
or_kept none kept = kept
or_kept (some null) kept = kept
or_kept (some (bool b)) kept = kept
or_kept (some (num n)) kept = kept
or_kept (some (list xs)) kept = kept
or_kept (some (dict fs)) kept = kept

abbrev pub note_key : Option Json → ToolExecution → ToolExecution
note_key key l = record l { idempotency_key = or_kept key l.idempotency_key }

-- An id that was seen before, with what came of it.
abbrev pub answer_again : String → String → ToolResult
answer_again id outcome =
    if outcome == "success"
    then result id "Already done."
    else error id "That didn't go through — could you try again?"

-- `ToolExecutionRepository.add`: an update of the row of an object that the session holds, and an
-- insertion of one that it does not hold, as when a rollback has undone its insertion.
unfoldable pub upsert : ToolExecution → List ToolExecution → List ToolExecution
upsert l [] = l ∷ []
upsert l (r ∷ rows) =
    let rest = upsert l rows in
    if r.vapi_tool_call_id == l.vapi_tool_call_id then l ∷ rows else r ∷ rest

-- `_save_log`
abbrev pub save_log : {P : Type 0} → ToolExecution → Backend P → Backend P
save_log l b = set_executions (upsert l (executions b)) b

-- The object after a tool has run. A commit leaves it as its row is; a rollback makes the session read
-- the row again, and where it has undone the insertion, the object keeps its fields.
abbrev pub reloaded : Option ToolExecution → ToolExecution → ToolExecution
reloaded none l = l
reloaded (some row) l = row

abbrev pub has_outcome : Option ToolExecution → Bool
has_outcome none = false
has_outcome (some r) = is_some r.outcome

-- What the handler rests on: the digest of a token, `json.loads`, `str` and `int`, the hash that derives
-- an idempotency key, the redaction, the texts of exceptions, and the functions of `_DISPATCH`.
pub record Channel (P : Type 0) : Type 0 where
  pub hash_token : String → String
  pub loads : String → Option Json
  pub repr : Json → String
  pub int_of : Json → Result Json
  pub derive : String → String → Fields → String
  pub redact : Fields → Fields
  pub message : Error → String
  pub dispatch : String → Fields → CurrentActor → Action (Backend P) String

module _ {P : Type 0} (channel : Channel P) (env : VoiceEnv) where
  abbrev pub on_log : (ToolExecution → ToolExecution) → Action (Attempt P) (Unit {0})
  on_log f = update (λ a. record a { log = f a.log })

  -- The row is flushed, and the tool is run, in the transaction that the row is a part of.
  abbrev pub run_tool : {A : Type 0} → Action (Backend P) A → Action (Attempt P) A
  run_tool m a =
      let (r, b) = m (save_log a.log a.backend) in
      (
        r,
        record {
          log = reloaded (get_by_vapi_tool_call_id a.log.vapi_tool_call_id (executions b)) a.log;
          backend = b;
        },
      )

  -- `_base_vapi_actor`
  abbrev pub base_vapi_actor : String → CurrentActor
  base_vapi_actor tool_execution_id = record (anonymous none) {
    actor_type = vapi_agent;
    vapi_authenticated = true;
    call_id = some env.call_id;
    assistant_id = env.assistant_id;
    tool_execution_id = some tool_execution_id;
    permissions = vapi_assistant_permissions;
  }

  abbrev pub denied : String → ToolExecution → ToolExecution
  denied reason l = record l { authorization_result = "denied"; denial_reason = some reason }

  abbrev pub ended : String → Option String → ToolExecution → ToolExecution
  ended outcome code l = record l { outcome = some outcome; error_code = code }

  -- The tool is implemented: its arguments are mapped, and it is called.
  abbrev pub call_tool : ToolCall → Fields → CurrentActor → Action (Attempt P) ToolResult
  call_tool call raw actor = do
    mapped ←
        lift (map_arguments channel.repr channel.int_of channel.derive call.name env.call_id raw)
    on_log (note_key (get "idempotency_key" mapped))
    spoken ← run_tool (channel.dispatch call.name mapped actor)
    on_log (λ l. record l { outcome = some "success" })
    pure (result call.id spoken)

  abbrev pub by_schema :
      ToolCall → Fields → CurrentActor → Option VapiToolSchema → Action (Attempt P) ToolResult
  by_schema call raw actor none = do
    on_log (ended "error" (some "UNKNOWN_TOOL"))
    pure (error call.id "I don't have a way to do that.")
  by_schema call raw actor (some schema) =
      if schema.implemented then call_tool call raw actor else (do
        on_log (λ l. record l { outcome = some "not_implemented" })
        pure (
            result call.id
              "That's not available yet — I can transfer you to a team member who can help with that."))

  abbrev pub decided :
      ToolCall → Fields → CurrentActor → AuthDecision → Action (Attempt P) ToolResult
  decided call raw actor decision =
      if decision.allowed
      then (do
        on_log (λ l. record l { authorization_result = "allowed" })
        by_schema call raw actor (lookup call.name vapi_tool_schemas))
      else (do
        on_log (denied decision.reason)
        pure (error call.id (denial_message decision.error_code)))

  -- Does the tool need the booking that the arguments name?
  abbrev pub wants_booking : ToolCall → Fields → Bool
  wants_booking call raw = contains call.name pnr_tools && is_truthy (get "pnr" raw)

  -- The token is redeemed for the booking, and the tool authorized for it.
  abbrev pub with_token :
      ToolCall → Fields → Booking → Result (Option String) → Action (Attempt P) ToolResult
  with_token call raw booking (err e) a = (err e, a)
  with_token call raw booking (ok token) a =
      let actor =
        redeem_verification_token channel.hash_token env.now (base_vapi_actor call.id) booking
          "vapi_tool_access" token a.backend.verification in
      decided call raw actor
        (authorize_vapi_tool_call actor call.name (some booking.id) (some booking.customer_id)) a

  abbrev pub for_booking : ToolCall → Fields → Option Booking → Action (Attempt P) ToolResult
  for_booking call raw none = do
    on_log (denied "booking_not_found")
    pure (error call.id "I couldn't find a booking with that confirmation number.")
  for_booking call raw (some booking) =
      with_token call raw booking (token_text (get "verification_token" raw))

  -- By whether the tool wants the booking.
  abbrev pub authorize_for : Bool → ToolCall → Fields → Action (Attempt P) ToolResult
  authorize_for true call raw a =
      for_booking call raw (get_by_pnr (pnr_text channel.repr raw) a.backend.world.session.working)
        a
  authorize_for false call raw a =
      decided call raw (base_vapi_actor call.id)
        (authorize_vapi_tool_call (base_vapi_actor call.id) call.name none none) a

  abbrev pub with_arguments : ToolCall → Fields → Action (Attempt P) ToolResult
  with_arguments call raw = authorize_for (wants_booking call raw) call raw

  abbrev pub attempt : ToolCall → Action (Attempt P) ToolResult
  attempt call = do
    raw ← lift (parse_tool_call_arguments channel.loads call.arguments)
    on_log (λ l. record l { arguments_redacted = channel.redact raw })
    with_arguments call raw

  abbrev pub apology : Error → Option String → String
  apology e (some code) = channel.message e
  apology e none = "Something went wrong on my end — let me transfer you to a human agent."

  -- The `except` clauses.
  abbrev pub failed : ToolCall → Error → ToolExecution → ToolResult × ToolExecution
  failed call e l = (
    error call.id (apology e (spoken_code e)),
    ended "error" (some (or_default (spoken_code e) "INTERNAL_ERROR")) l,
  )

  abbrev pub caught : ToolCall → Result ToolResult × Attempt P → ToolResult × Attempt P
  caught call (ok r, a) = (r, a)
  caught call (err e, a) = let (r, l) = failed call e a.log in (r, record a { log = l })

  abbrev pub too_quick : ToolCall → Attempt P → ToolResult × Attempt P
  too_quick call a = (
    error call.id "You're making requests a bit too quickly — let's slow down for a moment.",
    record a { log = denied "rate_limited" a.log },
  )

  -- From the rate limit on.
  abbrev pub process : ToolCall → Attempt P → ToolResult × Attempt P
  process call a =
      let (verdict, limits) =
        vapivoiceassistant.RateLimiter.check tool_rate_limiter (tool_rate_limit_key env.call_id)
          env.now a.backend.verification.limits in
      let counted = record a {
        backend = record a.backend {
          verification = record a.backend.verification { limits = limits };
        };
      } in
      if verdict.allowed then caught call (attempt call counted) else too_quick call counted

  abbrev pub new_log : ToolCall → ToolExecution
  new_log call = record {
    call_id = env.call_pk;
    vapi_tool_call_id = call.id;
    tool_name = call.name;
    arguments_redacted = end;
    authorization_result = "denied";
    denial_reason = none;
    outcome = none;
    error_code = none;
    idempotency_key = none;
  }

  -- The row is a new one, or that of an attempt that came to no end.
  abbrev pub start_log : ToolCall → Option ToolExecution → ToolExecution
  start_log call none = new_log call
  start_log call (some existing) = record existing { tool_name = call.name }

  -- The new row is added before anything else is done.
  abbrev pub claim : ToolCall → Option ToolExecution → Backend P → Backend P
  claim call none b = set_executions (new_log call ∷ executions b) b
  claim call (some existing) b = b

  -- Every path ends with `_save_log`.
  abbrev pub deliver : ToolCall → Option ToolExecution → Backend P → ToolResult × Backend P
  deliver call existing b =
      let (r, a) =
        process call (record { log = start_log call existing; backend = claim call existing b }) in
      (r, save_log a.log a.backend)

  abbrev pub redeliver :
      ToolCall → Option ToolExecution → Option String → Backend P → ToolResult × Backend P
  redeliver call existing (some outcome) b = (answer_again call.id outcome, b)
  redeliver call existing none b = deliver call existing b

  abbrev pub outcome_of : Option ToolExecution → Option String
  outcome_of none = none
  outcome_of (some r) = r.outcome

  unfoldable pub handle_one_tool_call : ToolCall → Backend P → ToolResult × Backend P
  handle_one_tool_call call b =
      let existing = get_by_vapi_tool_call_id call.id (executions b) in
      redeliver call existing (outcome_of existing) b
