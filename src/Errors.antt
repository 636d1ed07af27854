-- ===== src/Errors.antt =====
-- The exceptions that the services raise: the classes of apps/api/app/core/exceptions.py with their
-- codes, those of the payment and the airline providers, and the faults of Python and the database.
use vapivoiceassistant.Prelude.{
  String, ◌≡◌, ◌⊎◌, inl, inr, refl, ap, Option, none, some, Bool, true, false,
}

pub data Error : Type 0 where
  not_found_error validation_failed_error conflict_error verification_failed_error : String → Error
  -- `PaymentProviderError` and `ProviderError`, with their codes
  payment_provider_error provider_error : String → Error
  -- `AuthError`, and `ArgumentMappingError` of core/vapi/argument_mapping.py
  auth_error argument_error : String → Error
  -- a constraint of the database that a flush meets
  integrity_error : Error
  -- a key that a stored result lacks, and an attribute of `None`
  key_error attribute_error : Error
  -- `RuntimeError`, `ValueError`, `OverflowError`, and `TypeError`
  runtime_error value_error arithmetic_error type_error : Error

pub data Result (A : Type 0) : Type 0 where
  ok : A → Result A
  err : Error → Result A

-- Code that reads and writes a state and may raise. What was written before stays written.
abbrev pub Action : Type 0 → Type 0 → Type 0
Action S A = S → Result A × S

module _ {S A : Type 0} where
  abbrev pub pure : A → Action S A
  pure a s = (ok a, s)

  abbrev pub raise : Error → Action S A
  raise e s = (err e, s)

  abbrev pub gets : (S → A) → Action S A
  gets f s = (ok (f s), s)

  abbrev pub or_raise : Option A → Error → Action S A
  or_raise none e = raise e
  or_raise (some a) e = pure a

pub Result-cases :
    {A : Type 0} (r : Result A) → ((a : A) × (r ≡ ok a)) ⊎ ((e : Error) × (r ≡ err e))
Result-cases (ok a) = inl (a, refl)
Result-cases (err e) = inr (e, refl)

ok_value : {A : Type 0} → A → Result A → A
ok_value a (ok b) = b
ok_value a (err e) = a

pub ok-injective : {A : Type 0} {a b : A} → ok a ≡ ok b → a ≡ b
unfolding ok_value
ok-injective {a} e = ap (ok_value a) e

abbrev pub is_ok : {A : Type 0} → Result A → Bool
is_ok (ok a) = true
is_ok (err e) = false
