-- ===== src/Services.antt =====
-- What the services of apps/api/app/services share: the state that a call works on, exceptions,
-- and the replay of a stored result.
pub mod Outcomes
use vapivoiceassistant.Prelude.{
  ℕ, String, Bool, true, false, Option, none, some, List, [], ◌∷◌, is_some, ◌==◌, ◌&&◌,
  if◌then◌else◌,
}
use vapivoiceassistant.Prelude.Dict.{Dict, lookup}
use vapivoiceassistant.Errors.{
  Error, Result, ok, err, Action, pure, raise, gets, or_raise, validation_failed_error, key_error,
  not_found_error,
}
use vapivoiceassistant.Models.{Booking, Payment, AuditLog, MetaValue}
use vapivoiceassistant.Idempotency.{IdempotencyStore, StoredResult, begin, complete, fail}
use vapivoiceassistant.Database.Rows.{IsConsistent}
use vapivoiceassistant.Database.{Db, Session, commit, rollback, get_payment_by_id, get_by_pnr}

-- `S` is the state of the provider.
pub record World (S : Type 0) : Type 0 where
  pub session : Session
  pub idempotency : IdempotencyStore
  pub provider : S

-- The clock, the id that the next row gets, and who calls.
pub record Env : Type 0 where
  pub now : ℕ
  pub new_id : String
  pub actor : String
  pub call_id : Option String
  pub request_id : Option String

abbrev pub actor_type : Env → String
actor_type env = if is_some env.call_id then "ai_agent" else "system"

-- The audit row that a service writes in the name of its caller.
abbrev pub audit : Env → String → String → String → Dict MetaValue → AuditLog
audit env action resource resource_id metadata = record {
  actor = env.actor;
  actor_type = actor_type env;
  action = action;
  resource = resource;
  resource_id = some resource_id;
  request_id = env.request_id;
  call_id = env.call_id;
  event_metadata = metadata;
}

module _ {S : Type 0} where
  infixl 5 ◌>>=◌ ◌>>◌
  abbrev pub ◌>>=◌ :
      {A B : Type 0} → Action (World S) A → (A → Action (World S) B) → Action (World S) B
  ◌>>=◌ m f w = let (r, w') = m w in elim r [ ok a ↦ f a w' | err e ↦ (err e, w') ]

  abbrev pub ◌>>◌ : {A B : Type 0} → Action (World S) A → Action (World S) B → Action (World S) B
  m >> k = m >>= λ _. k

  abbrev pub raise_if : Bool → Error → Action (World S) (Unit {0})
  raise_if c e w = (if c then err e else ok tt, w)

  -- A query, and a change, of the open transaction.
  abbrev pub query : {A : Type 0} → (Db → A) → Action (World S) A
  query f w = (ok (f w.session.working), w)

  abbrev pub modify : (Db → Db) → Action (World S) (Unit {0})
  modify f w = (ok tt, record w { session = record w.session { working = f w.session.working } })

  -- A change that a constraint of the database may refuse.
  abbrev pub try_modify : (Db → Result Db) → Action (World S) (Unit {0})
  try_modify f w = elim (f w.session.working) [
    | ok d ↦ (ok tt, record w { session = record w.session { working = d } })
    | err e ↦ (err e, w)
  ]

  abbrev pub commit_session : Action (World S) (Unit {0})
  commit_session w = (ok tt, record w { session = commit w.session })

  abbrev pub begin_key : String → ℕ → Action (World S) (Option StoredResult)
  begin_key key now w =
      let (r, store) = begin key now w.idempotency in (ok r, record w { idempotency = store })

  abbrev pub complete_key : String → Dict String → ℕ → Action (World S) (Unit {0})
  complete_key key result now w =
      (ok tt, record w { idempotency = complete key result now w.idempotency })

  abbrev pub fail_key : String → Action (World S) (Unit {0})
  fail_key key w = (ok tt, record w { idempotency = fail key w.idempotency })

  abbrev pub call_provider : {A : Type 0} → Action S A → Action (World S) A
  call_provider m w = let (r, s) = m w.provider in (r, record w { provider = s })

  -- `except Exception: self.db.rollback(); self.idempotency.fail(key); raise`
  abbrev pub undo : String → World S → World S
  undo key w = record w { session = rollback w.session; idempotency = fail key w.idempotency }

  abbrev pub or_undo : {A : Type 0} → String → Action (World S) A → Action (World S) A
  or_undo key m w = let (r, w') = m w in elim r [ ok a ↦ (ok a, w') | err e ↦ (err e, undo key w') ]

  -- `except Exception: self.db.rollback(); raise`
  abbrev pub undo_session : {A : Type 0} → Action (World S) A → Action (World S) A
  undo_session m w =
      let (r, w') = m w in
      elim r [ ok a ↦ (ok a, w') | err e ↦ (err e, record w' { session = rollback w'.session }) ]

  -- An early return of a value that was found.
  abbrev pub or_else : {A : Type 0} → Option A → Action (World S) A → Action (World S) A
  or_else none m = m
  or_else (some a) m = pure a

  -- `self.bookings.get_by_pnr(pnr)` with the check that follows it.
  abbrev pub find_booking : String → Action (World S) Booking
  find_booking pnr = do
    booking ← query (get_by_pnr pnr)
    or_raise booking (not_found_error "BOOKING_NOT_FOUND")

  -- The payment that a stored result names; an empty result names none.
  stored_payment : Option (Dict String) → Action (World S) (Option Payment)
  stored_payment none = pure none
  stored_payment (some []) = pure none
  stored_payment (some (e ∷ d)) = do
    id ← or_raise (lookup "payment_id" (e ∷ d)) key_error
    query (get_payment_by_id id)

  -- What a method that keeps payments does with the answer of `begin`: replay, refuse or go on.
  unfoldable pub replay_payment : String → Option StoredResult → Action (World S) (Option Payment)
  unfolding stored_payment
  replay_payment code none = pure none
  replay_payment code (some cached) = do
    existing ← if cached.status == "completed" then stored_payment cached.result else pure none
    elim existing [
      | some payment ↦ pure (some payment)
      | none ↦
          if cached.status == "in_progress" then raise (validation_failed_error code) else pure none
    ]

-- What is committed and what the open transaction sees are both consistent.
abbrev pub IsSound : {S : Type 0} → World S → Type 0
IsSound w = IsConsistent w.session.committed × IsConsistent w.session.working
