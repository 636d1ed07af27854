-- ===== src/Access/Rbac.antt =====
-- Roles, permissions and the matrix between them: apps/api/app/core/security/rbac.py. A set of
-- texts is a list, read by membership.
pub mod Laws
use vapivoiceassistant.Prelude.{
  String, Bool, Option, none, some, List, [], ◌∷◌, ◌++◌, any, all, contains,
}
use vapivoiceassistant.Prelude.Dict.{Dict, lookup}

abbrev pub all_permissions : List String
all_permissions =
    "users.read" ∷ "users.manage" ∷ "customers.read" ∷ "customers.manage" ∷ "passengers.read"
    ∷ "passengers.manage" ∷ "flights.read" ∷ "flights.manage" ∷ "bookings.read" ∷ "bookings.create"
    ∷ "bookings.modify" ∷ "bookings.cancel" ∷ "payments.read" ∷ "payments.create"
    ∷ "payments.refund" ∷ "calls.read" ∷ "calls.manage" ∷ "support.read" ∷ "support.manage"
    ∷ "vapi.execute" ∷ "vapi.configure" ∷ "admin.read" ∷ "admin.manage" ∷ "system.manage"
    ∷ "audit.read" ∷ "audit.export" ∷ []

abbrev customer_permissions : List String
customer_permissions =
    "customers.read" ∷ "customers.manage" ∷ "bookings.read" ∷ "bookings.create" ∷ "bookings.modify"
    ∷ "bookings.cancel" ∷ "passengers.read" ∷ "passengers.manage" ∷ "payments.read"
    ∷ "payments.create" ∷ "flights.read" ∷ []

abbrev read_only_permissions : List String
read_only_permissions =
    "users.read" ∷ "customers.read" ∷ "passengers.read" ∷ "flights.read" ∷ "bookings.read"
    ∷ "payments.read" ∷ "calls.read" ∷ "support.read" ∷ "audit.read" ∷ []

abbrev support_agent_permissions : List String
support_agent_permissions =
    "customers.read" ∷ "passengers.read" ∷ "flights.read" ∷ "bookings.read" ∷ "bookings.modify"
    ∷ "bookings.cancel" ∷ "calls.read" ∷ "calls.manage" ∷ "support.read" ∷ "support.manage" ∷ []

abbrev booking_agent_permissions : List String
booking_agent_permissions =
    "customers.read" ∷ "passengers.read" ∷ "passengers.manage" ∷ "flights.read" ∷ "bookings.read"
    ∷ "bookings.create" ∷ "bookings.modify" ∷ "bookings.cancel" ∷ []

abbrev finance_permissions : List String
finance_permissions =
    "bookings.read" ∷ "payments.read" ∷ "payments.create" ∷ "payments.refund" ∷ "audit.read" ∷ []

abbrev admin_permissions : List String
admin_permissions =
    "users.read" ∷ "users.manage" ∷ "customers.read" ∷ "customers.manage" ∷ "passengers.read"
    ∷ "passengers.manage" ∷ "flights.read" ∷ "flights.manage" ∷ "bookings.read" ∷ "bookings.create"
    ∷ "bookings.modify" ∷ "bookings.cancel" ∷ "payments.read" ∷ "payments.refund" ∷ "calls.read"
    ∷ "calls.manage" ∷ "support.read" ∷ "support.manage" ∷ "vapi.execute" ∷ "vapi.configure"
    ∷ "admin.read" ∷ "admin.manage" ∷ "audit.read" ∷ "audit.export" ∷ []

abbrev pub role_permissions : Dict (List String)
role_permissions =
    ("CUSTOMER", customer_permissions)
    ∷ ("READ_ONLY", read_only_permissions)
    ∷ ("SUPPORT_AGENT", support_agent_permissions)
    ∷ ("BOOKING_AGENT", booking_agent_permissions)
    ∷ ("FINANCE", finance_permissions)
    ∷ ("ADMIN", admin_permissions)
    ∷ ("SUPER_ADMIN", all_permissions)
    ∷ []

union_with : Option (List String) → Option (List String) → Option (List String)
union_with (some granted) (some more) = some (granted ++ more)
union_with _ _ = none

-- The union over the roles; `none` is `UnknownRoleError`, for a role that the matrix lacks.
unfoldable pub permissions_for_roles : List String → Option (List String)
unfolding union_with
permissions_for_roles [] = some []
permissions_for_roles (role ∷ roles) =
    union_with (lookup role role_permissions) (permissions_for_roles roles)

unfoldable pub has_permission : List String → String → Bool
has_permission granted required = contains required granted

unfoldable pub has_any_permission : List String → List String → Bool
has_any_permission granted required = any (λ r. contains r granted) required

unfoldable pub has_all_permissions : List String → List String → Bool
has_all_permissions granted required = all (λ r. contains r granted) required
