-- ===== src/Vapi/Calls/Rows.antt =====
-- The rows of tool executions, by the id of the call.
use vapivoiceassistant.Prelude.{
  ◌≡◌, refl, String, some, List, [], ◌∷◌, ◌==◌, inl, inr, eq_refl, eq_iff, Bool-cases,
}
use vapivoiceassistant.Database.Rows.{find_holds}
use vapivoiceassistant.Models.{ToolExecution}
use vapivoiceassistant.Vapi.Calls.{Backend, get_by_vapi_tool_call_id, set_rows, upsert}

-- Nothing but the limiter and the open rows of tool executions has been touched.
abbrev pub IsUntouched : {P : Type 0} → Backend P → Backend P → Type 0
IsUntouched b c =
    (set_rows [] c.world ≡ set_rows [] b.world)
    × (c.verification.sessions ≡ b.verification.sessions)

-- The search finds the row that was saved.
pub find-upsert :
    (l : ToolExecution) (rows : List ToolExecution)
    → get_by_vapi_tool_call_id l.vapi_tool_call_id (upsert l rows) ≡ some l
unfolding get_by_vapi_tool_call_id upsert
find-upsert l [] = rw (eq_refl l.vapi_tool_call_id) refl
find-upsert l (q ∷ rows) = elim (Bool-cases (q.vapi_tool_call_id == l.vapi_tool_call_id)) [
  | inl here ↦ rw (here, eq_refl l.vapi_tool_call_id) refl
  | inr other ↦ rw (other, other) (find-upsert l rows)
]

pub found_id :
    (id : String) (rows : List ToolExecution) (r : ToolExecution)
    → get_by_vapi_tool_call_id id rows ≡ some r
    → r.vapi_tool_call_id ≡ id
unfolding get_by_vapi_tool_call_id
found_id id rows r h =
    (eq_iff r.vapi_tool_call_id id).0 (find_holds (λ q. q.vapi_tool_call_id == id) rows h)
