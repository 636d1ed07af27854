-- ===== src/Vapi/Calls/Once.antt =====
-- A tool call that is delivered again. The row that the first delivery leaves is flushed, and
-- committed at the end of the request; a rollback before that undoes it.
use vapivoiceassistant.Prelude.{◌≡◌, true, ◌⊎◌, is_some}
use vapivoiceassistant.Errors.{Action}
use vapivoiceassistant.RateLimiter
use vapivoiceassistant.Vapi.Calls.{ToolResult, ToolCall, Channel, Attempt, VoiceEnv, caught}
use vapivoiceassistant.Vapi.Calls.Rows.{IsUntouched}

-- The call keeps its row, and has come to an end that the row tells, or it has touched nothing.
abbrev pub IsSettled : {P : Type 0} → Attempt P → Attempt P → Type 0
IsSettled a b =
    (b.log.vapi_tool_call_id ≡ a.log.vapi_tool_call_id)
    × ((is_some b.log.outcome ≡ true) ⊎ IsUntouched a.backend b.backend)

module _ {P : Type 0} (channel : Channel P) (env : VoiceEnv) where
  -- What a step comes to, exceptions caught.
  abbrev End : ToolCall → Action (Attempt P) ToolResult → Attempt P → Attempt P
  End call m a = (caught channel env call (m a)).1
