-- ===== src/Access/Rbac/Laws.antt =====
-- The role matrix of rbac.py: what a set of roles grants, and who may do what is most sensitive.
use vapivoiceassistant.Prelude.{
  String, ◌≡◌, refl, Bool, true, ◌||◌, Option, none, some, List, [], ◌∷◌, ◌++◌, arith, contains,
  contains-nil, all, any, inl, inr, Option-cases, is_some,
}
use vapivoiceassistant.Prelude.Dict.{lookup, lookup_elim, AllEntries}
use vapivoiceassistant.Access.Rbac.{role_permissions, permissions_for_roles}

abbrev pub or_none : Option (List String) → List String
or_none none = []
or_none (some xs) = xs

-- What one role grants; an unknown role grants nothing.
abbrev pub grants : String → String → Bool
grants permission role = contains permission (or_none (lookup role role_permissions))

contains-append :
    (p : String) (xs ys : List String) → contains p (xs ++ ys) ≡ contains p xs || contains p ys
unfolding contains
contains-append p [] ys = refl
contains-append p (x ∷ xs) ys = ground (arith, contains-append p xs ys)

-- Roles are refused exactly if one of them is unknown, wherever it stands.
pub known-permissions_for_roles :
    (roles : List String)
    → is_some (permissions_for_roles roles) ≡ all (λ r. is_some (lookup r role_permissions)) roles
unfolding permissions_for_roles
known-permissions_for_roles [] = refl
known-permissions_for_roles (r ∷ rs) = ground (arith, known-permissions_for_roles rs)

-- Of roles that are known, a permission is held exactly if one of them grants it.
pub contains-permissions_for_roles :
    (roles granted : List String) (p : String)
    → permissions_for_roles roles ≡ some granted
    → contains p granted ≡ any (grants p) roles
unfolding permissions_for_roles
contains-permissions_for_roles [] granted p e = ground (arith, contains-nil p)
contains-permissions_for_roles (r ∷ rs) granted p e =
    elim (Option-cases (lookup r role_permissions)) [
      | inl unknown ↦ ground arith
      | inr (xs, known) ↦ elim (Option-cases (permissions_for_roles rs)) [
        | inl unknown ↦ ground arith
        | inr (ys, rest) ↦
            ground (arith, contains-append p xs ys, contains-permissions_for_roles rs ys p rest)
      ]
    ]

-- Only the roles listed may have the permission, if the matrix says so row by row.
module _ (p : String) (roles : List String) where
  granted_by :
      (role : String)
      → AllEntries (λ r ps. contains p ps ≡ true → contains r roles ≡ true) role_permissions
      → grants p role ≡ true
      → contains role roles ≡ true
  granted_by role rows h = elim (Option-cases (lookup role role_permissions)) [
    | inl unknown ↦ ground (arith, contains-nil p)
    | inr (ps, e) ↦
        lookup_elim (λ r ps. contains p ps ≡ true → contains r roles ≡ true) role_permissions role
          rows e (ground arith)
  ]

-- Only finance and the two kinds of administrators may refund a payment.
pub refund_roles :
    (role : String)
    → grants "payments.refund" role ≡ true
    → contains role ("FINANCE" ∷ "ADMIN" ∷ "SUPER_ADMIN" ∷ []) ≡ true
unfolding contains
refund_roles role =
    granted_by "payments.refund" ("FINANCE" ∷ "ADMIN" ∷ "SUPER_ADMIN" ∷ []) role (ground arith)

-- Only administrators may configure the voice assistant.
pub configure_roles :
    (role : String)
    → grants "vapi.configure" role ≡ true
    → contains role ("ADMIN" ∷ "SUPER_ADMIN" ∷ []) ≡ true
unfolding contains
configure_roles role =
    granted_by "vapi.configure" ("ADMIN" ∷ "SUPER_ADMIN" ∷ []) role (ground arith)
