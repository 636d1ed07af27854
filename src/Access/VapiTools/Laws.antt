-- ===== src/Access/VapiTools/Laws.antt =====
-- What the voice assistant may do under vapi_authorization.py.
use vapivoiceassistant.Prelude.{
  String, ◌≡◌, refl, Bool, true, false, Option, none, some, arith, contains, ◌⊎◌, inl, inr,
}
use vapivoiceassistant.Prelude.Dict.{lookup, lookup_elim}
use vapivoiceassistant.Access.Actor.{
  vapi_agent, CurrentActor, has_permission, has_valid_booking_verification,
}
use vapivoiceassistant.Access.Ownership.{authorize_booking_access}
use vapivoiceassistant.Access.VapiTools.{
  ToolSensitivity, public, requires_verified_booking, staff_or_admin_only, ToolEntry,
  tool_authorization_matrix, vapi_assistant_permissions, authorize_vapi_tool_call,
}

-- A tool for staff is never called by voice, whatever permissions the actor holds, and neither is
-- a tool that the matrix lacks.
pub staff_tool_denied :
    (actor : CurrentActor) (tool : String) (booking customer : Option String)
    → (lookup tool tool_authorization_matrix ≡ none)
      ⊎ ((e : ToolEntry) × (lookup tool tool_authorization_matrix ≡ some e)
          × (e.sensitivity ≡ staff_or_admin_only))
    → (authorize_vapi_tool_call actor tool booking customer).allowed ≡ false
unfolding authorize_vapi_tool_call
staff_tool_denied actor tool booking customer (inl unknown) = ground arith
staff_tool_denied actor tool booking customer (inr (e, found, staff)) = ground arith

-- What the assistant may call at all, by the sensitivity of the tool: given a booking, a tool that
-- needs one wants a verification of that booking.
abbrev pub may_call : ToolSensitivity → CurrentActor → Option String → Bool
may_call public actor booking = true
may_call staff_or_admin_only actor booking = false
may_call requires_verified_booking actor none = false
may_call requires_verified_booking actor (some b) =
    has_valid_booking_verification actor b "vapi_tool_access"

granted :
    (tool : String) (e : ToolEntry)
    → lookup tool tool_authorization_matrix ≡ some e
    → e.sensitivity ≡ staff_or_admin_only
      ⊎ (contains e.permission vapi_assistant_permissions ≡ true)
unfolding vapi_assistant_permissions contains
granted tool e found =
    lookup_elim
      (λ _ e.
        e.sensitivity ≡ staff_or_admin_only
        ⊎ (contains e.permission vapi_assistant_permissions ≡ true))
      tool_authorization_matrix tool (ground arith) found

execute_granted : contains "vapi.execute" vapi_assistant_permissions ≡ true
unfolding vapi_assistant_permissions contains
execute_granted = refl

-- An authenticated call by an assistant with the permissions that are meant for it: which tools it
-- reaches rests on the tool's sensitivity and on the verification of the booking alone.
pub assistant_access :
    (actor : CurrentActor) (tool : String) (e : ToolEntry) (booking customer : Option String)
    → actor.actor_type ≡ vapi_agent
    → actor.vapi_authenticated ≡ true
    → actor.permissions ≡ vapi_assistant_permissions
    → lookup tool tool_authorization_matrix ≡ some e
    → (authorize_vapi_tool_call actor tool booking customer).allowed
      ≡ may_call e.sensitivity actor booking
unfolding authorize_vapi_tool_call has_permission authorize_booking_access
assistant_access actor tool e booking customer agent authenticated perms found =
    ground (arith, granted tool e found, execute_granted)

-- The permissions meant for the assistant leave out those of every tool for staff.
pub assistant_lacks_staff_permissions :
    (tool : String) (e : ToolEntry)
    → lookup tool tool_authorization_matrix ≡ some e
    → e.sensitivity ≡ staff_or_admin_only
    → contains e.permission vapi_assistant_permissions ≡ false
unfolding vapi_assistant_permissions contains
assistant_lacks_staff_permissions tool e found =
    lookup_elim
      (λ _ e.
        e.sensitivity ≡ staff_or_admin_only
        → contains e.permission vapi_assistant_permissions ≡ false)
      tool_authorization_matrix tool (ground arith) found

-- Whatever permissions an actor holds, a tool is called only in an authenticated call.
pub call_needs_authentication :
    (actor : CurrentActor) (tool : String) (booking customer : Option String)
    → (authorize_vapi_tool_call actor tool booking customer).allowed ≡ true
    → (actor.actor_type ≡ vapi_agent) × (actor.vapi_authenticated ≡ true)
unfolding authorize_vapi_tool_call
call_needs_authentication actor tool booking customer ok = ground arith
