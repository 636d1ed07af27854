-- ===== src/Services/Outcomes.antt =====
-- Rules for what holds after a call of a service, on its return and on an exception, one for each
-- statement that the services are made of.
use vapivoiceassistant.Prelude.{
  ◌∙◌, String, ◌≡◌, refl, Bool, true, false, Option, none, some, [], ◌∷◌, ◌==◌, if◌then◌else◌,
}
use vapivoiceassistant.Prelude.Dict.{Dict, lookup}
use vapivoiceassistant.Errors.{
  Error, Result, ok, err, Action, pure, raise, or_raise, validation_failed_error, not_found_error,
  key_error,
}
use vapivoiceassistant.Models.{Payment}
use vapivoiceassistant.Idempotency.{StoredResult}
use vapivoiceassistant.Database.{Db, get_payment_by_id, get_by_pnr}
use vapivoiceassistant.Services.{
  World, find_booking, ◌>>=◌, raise_if, query, try_modify, call_provider, undo, or_undo, or_else,
  stored_payment, replay_payment,
}

-- `Q` of the value and the state that are returned, `E` of the exception and the state it leaves.
abbrev pub After : {A W : Type 0} → (A → W → Type 0) → (Error → W → Type 0) → Result A × W → Type 0
After Q E (ok a, w) = Q a w
After Q E (err e, w) = E e w

-- From a state where `P` holds the action ends with `Q` or with `E`.
pub record Ensures {A W : Type 0} (P : W → Type 0) (m : Action W A) (Q : A → W → Type 0)
    (E : Error → W → Type 0) : Type 0 where
  pub run : (w : W) → P w → After Q E (m w)

module _ {A W : Type 0} (Q Q' : A → W → Type 0) (E E' : Error → W → Type 0) where
  weaken-After :
      ((a : A) (w : W) → Q a w → Q' a w)
      → ((e : Error) (w : W) → E e w → E' e w)
      → (x : Result A × W) → After Q E x
      → After Q' E' x
  weaken-After f g (ok a, w) h = f a w h
  weaken-After f g (err e, w) h = g e w h

pub weaken :
    {A W : Type 0} {m : Action W A} {P P' : W → Type 0} {Q Q' : A → W → Type 0}
    {E E' : Error → W → Type 0}
    → Ensures P m Q E
    → ((w : W) → P' w → P w)
    → ((a : A) (w : W) → Q a w → Q' a w)
    → ((e : Error) (w : W) → E e w → E' e w)
    → Ensures P' m Q' E'
weaken {m} {Q} {Q'} {E} {E'} h before f g = record {
  run = λ w p. weaken-After Q Q' E E' f g (m w) (h.run w (before w p));
}

module _ {S : Type 0} where
  bind-After :
      {A B : Type 0} (f : A → Action (World S) B) (R : A → World S → Type 0)
      (Q : B → World S → Type 0) (E : Error → World S → Type 0) (x : Result A × World S)
      → After R E x
      → ((a : A) → Ensures (R a) (f a) Q E)
      → After Q E (elim x.0 [ ok a ↦ f a x.1 | err e ↦ (err e, x.1) ])
  bind-After f R Q E (ok a, w) h k = (k a).run w h
  bind-After f R Q E (err e, w) h k = h

  pub bind-Ensures :
      {A B : Type 0} (m : Action (World S) A) (f : A → Action (World S) B) {P : World S → Type 0}
      (R : A → World S → Type 0) {Q : B → World S → Type 0} {E : Error → World S → Type 0}
      → Ensures P m R E
      → ((a : A) → Ensures (R a) (f a) Q E)
      → Ensures P (m >>= f) Q E
  bind-Ensures m f {P} R {Q} {E} h k = record {
    run = λ w p. bind-After f R Q E (m w) (h.run w p) k;
  }

  undo-After :
      {A : Type 0} (key : String) (Q : A → World S → Type 0) (E E' : Error → World S → Type 0)
      (x : Result A × World S)
      → After Q E' x
      → ((e : Error) (w : World S) → E' e w → E e (undo key w))
      → After Q E (elim x.0 [ ok a ↦ (ok a, x.1) | err e ↦ (err e, undo key x.1) ])
  undo-After key Q E E' (ok a, w) h k = h
  undo-After key Q E E' (err e, w) h k = k e w h

  pub or_undo-Ensures :
      {A : Type 0} (key : String) (m : Action (World S) A) {P : World S → Type 0}
      {Q : A → World S → Type 0} {E : Error → World S → Type 0} (E' : Error → World S → Type 0)
      → Ensures P m Q E'
      → ((e : Error) (w : World S) → E' e w → E e (undo key w))
      → Ensures P (or_undo key m) Q E
  or_undo-Ensures key m {P} {Q} {E} E' h k = record {
    run = λ w p. undo-After key Q E E' (m w) (h.run w p) k;
  }

  pub or_else-Ensures :
      {A : Type 0} (o : Option A) (m : Action (World S) A) {P : World S → Type 0}
      {Q : A → World S → Type 0} {E : Error → World S → Type 0}
      → ((a : A) → o ≡ some a → (w : World S) → P w → Q a w)
      → (o ≡ none → Ensures P m Q E)
      → Ensures P (or_else o m) Q E
  or_else-Ensures none m h k = k refl
  or_else-Ensures (some a) m h k = record { run = λ w p. h a refl w p }

  pub raise_if-Ensures :
      (c : Bool) (e : Error) {P : World S → Type 0} {E : Error → World S → Type 0}
      → ((w : World S) → c ≡ true → P w → E e w)
      → Ensures P (raise_if c e) (λ _ w. (c ≡ false) × P w) E
  raise_if-Ensures true e h = record { run = λ w p. h w refl p }
  raise_if-Ensures false e h = record { run = λ w p. (refl, p) }

  pub or_raise-Ensures :
      {A : Type 0} (o : Option A) (e : Error) {P : World S → Type 0} {E : Error → World S → Type 0}
      → ((w : World S) → o ≡ none → P w → E e w)
      → Ensures P (or_raise o e) (λ a w. (o ≡ some a) × P w) E
  or_raise-Ensures none e h = record { run = λ w p. h w refl p }
  or_raise-Ensures (some a) e h = record { run = λ w p. (refl, p) }

  try-After :
      (w : World S) (Q : Unit {0} → World S → Type 0) (E : Error → World S → Type 0) (r : Result Db)
      → ((d : Db) → r ≡ ok d → Q tt (record w { session = record w.session { working = d } }))
      → ((e : Error) → E e w)
      → After {A = Unit {0}} Q E (elim r [
        | ok d ↦ (ok tt, record w { session = record w.session { working = d } })
        | err e ↦ (err e, w)
      ])
  try-After w Q E (ok d) h k = h d refl
  try-After w Q E (err e) h k = k e

  pub try_modify-Ensures :
      (f : Db → Result Db) {P : World S → Type 0} {Q : Unit {0} → World S → Type 0}
      {E : Error → World S → Type 0}
      → ((w : World S) (d : Db)
          → P w
          → f w.session.working ≡ ok d
          → Q tt (record w { session = record w.session { working = d } }))
      → ((e : Error) (w : World S) → P w → E e w)
      → Ensures P (try_modify f) Q E
  try_modify-Ensures f {P} {Q} {E} h k = record {
    run = λ w p. try-After w Q E (f w.session.working) (λ d e. h w d p e) (λ e. k e w p);
  }

  call-After :
      {A : Type 0} (w : World S) (Q : A → World S → Type 0) (E : Error → World S → Type 0)
      (x : Result A × S)
      → ((a : A) → Q a (record w { provider = x.1 }))
      → ((e : Error) → E e (record w { provider = x.1 }))
      → After Q E (x.0, record w { provider = x.1 })
  call-After w Q E (ok a, s) h k = h a
  call-After w Q E (err e, s) h k = k e

  -- The provider may answer or raise, and changes no state but its own.
  pub call_provider-Ensures :
      {A : Type 0} (m : Action S A) {P : World S → Type 0} {Q : A → World S → Type 0}
      {E : Error → World S → Type 0}
      → ((a : A) (w : World S) (s : S) → P w → Q a (record w { provider = s }))
      → ((e : Error) (w : World S) (s : S) → P w → E e (record w { provider = s }))
      → Ensures P (call_provider m) Q E
  call_provider-Ensures m {P} {Q} {E} h k = record {
    run = λ w p.
        call-After w Q E (m w.provider) (λ a. h a w (m w.provider).1 p)
          (λ e. k e w (m w.provider).1 p);
  }

  answer-After :
      {A : Type 0} (w : World S) (Q : A → World S → Type 0) (E : Error → World S → Type 0)
      (x : Result A × S)
      → ((a : A) → x.0 ≡ ok a → Q a (record w { provider = x.1 }))
      → ((e : Error) → E e (record w { provider = x.1 }))
      → After Q E (x.0, record w { provider = x.1 })
  answer-After w Q E (ok a, s) h k = h a refl
  answer-After w Q E (err e, s) h k = k e

  -- The same with the answer known to be the provider's.
  pub answer-Ensures :
      {A : Type 0} (m : Action S A) {P : World S → Type 0} {Q : A → World S → Type 0}
      {E : Error → World S → Type 0}
      → ((a : A) (w : World S) (s t : S) → (m s).0 ≡ ok a → P w → Q a (record w { provider = t }))
      → ((e : Error) (w : World S) (t : S) → P w → E e (record w { provider = t }))
      → Ensures P (call_provider m) Q E
  answer-Ensures m {P} {Q} {E} h k = record {
    run = λ w p.
        answer-After w Q E (m w.provider) (λ a e. h a w w.provider (m w.provider).1 e p)
          (λ e. k e w (m w.provider).1 p);
  }

  pub if-Ensures :
      {A : Type 0} (c : Bool) (m n : Action (World S) A) {P : World S → Type 0}
      {Q : A → World S → Type 0} {E : Error → World S → Type 0}
      → (c ≡ true → Ensures P m Q E)
      → (c ≡ false → Ensures P n Q E)
      → Ensures P (if c then m else n) Q E
  if-Ensures true m n h k = h refl
  if-Ensures false m n h k = k refl

  pub pure-Ensures :
      {A : Type 0} (a : A) {P : World S → Type 0} {Q : A → World S → Type 0}
      {E : Error → World S → Type 0}
      → ((w : World S) → P w → Q a w)
      → Ensures P (pure a) Q E
  pure-Ensures a h = record { run = h }

  pub raise-Ensures :
      {A : Type 0} (e : Error) {P : World S → Type 0} {Q : A → World S → Type 0}
      {E : Error → World S → Type 0}
      → ((w : World S) → P w → E e w)
      → Ensures P (raise e) Q E
  raise-Ensures e h = record { run = h }

  module _ {P : World S → Type 0} {E : Error → World S → Type 0}
      (refuse : (e : Error) (w : World S) → P w → E e w) where
    stored_payment-Ensures :
        (result : Option (Dict String)) → Ensures P (stored_payment result) (λ _ w. P w) E
    unfolding stored_payment
    stored_payment-Ensures none = pure-Ensures none (λ w p. p)
    stored_payment-Ensures (some []) = pure-Ensures none (λ w p. p)
    stored_payment-Ensures (some (e ∷ d)) =
        bind-Ensures (or_raise (lookup "payment_id" (e ∷ d)) key_error)
          (λ id. query (get_payment_by_id id))
          (λ id w. (lookup "payment_id" (e ∷ d) ≡ some id) × P w)
          (or_raise-Ensures (lookup "payment_id" (e ∷ d)) key_error (λ w _ p. refuse key_error w p))
          (λ id. record { run = λ w p. p.1 })

    replay_step-Ensures :
        (code : String) (progress : Bool) (existing : Option Payment)
        → Ensures {A = Option Payment} P
            (elim existing [
              | some payment ↦ pure (some payment)
              | none ↦ if progress then raise (validation_failed_error code) else pure none
            ])
            (λ _ w. P w)
            E
    replay_step-Ensures code progress (some p) = pure-Ensures (some p) (λ w p. p)
    replay_step-Ensures code progress none =
        if-Ensures progress (raise (validation_failed_error code)) (pure none)
          (λ _.
            raise-Ensures (validation_failed_error code) (refuse (validation_failed_error code)))
          (λ _. pure-Ensures none (λ w p. p))

    -- A replay changes nothing.
    pub replay_payment-Ensures :
        (code : String) (cached : Option StoredResult)
        → Ensures P (replay_payment code cached) (λ _ w. P w) E
    unfolding replay_payment
    replay_payment-Ensures code none = pure-Ensures none (λ w p. p)
    replay_payment-Ensures code (some cached) =
        bind-Ensures
          (if cached.status == "completed" then stored_payment cached.result else pure none)
          (λ existing. elim existing [
            | some payment ↦ pure (some payment)
            | none ↦
                if cached.status == "in_progress"
                then raise (validation_failed_error code)
                else pure none
          ])
          (λ _ w. P w)
          (if-Ensures (cached.status == "completed") (stored_payment cached.result) (pure none)
            (λ _. stored_payment-Ensures cached.result) (λ _. pure-Ensures none (λ w p. p)))
          (λ existing. replay_step-Ensures code (cached.status == "in_progress") existing)

  pub find_booking-Ensures :
      (pnr : String) {P : World S → Type 0} {E : Error → World S → Type 0}
      → ((e : Error) (w : World S) → P w → E e w)
      → Ensures P
          (find_booking pnr)
          (λ booking w. P w × (get_by_pnr pnr w.session.working ≡ some booking))
          E
  find_booking-Ensures pnr {P} refuse =
      let missing = not_found_error "BOOKING_NOT_FOUND" in
      bind-Ensures (query (get_by_pnr pnr)) (λ b. or_raise b missing)
        (λ b w. P w × (get_by_pnr pnr w.session.working ≡ b)) (record { run = λ w p. (p, refl) })
        (λ b.
          weaken (or_raise-Ensures b missing (λ w _ p. refuse missing w p.0)) (λ w p. p)
            (λ a w q. (q.1.0, q.1.1 ∙ q.0)) (λ e w q. q))

  -- A guard whose test is not needed afterwards.
  pub guard-Ensures :
      (c : Bool) (e : Error) {P : World S → Type 0} {E : Error → World S → Type 0}
      → ((w : World S) → P w → E e w)
      → Ensures P (raise_if c e) (λ _. P) E
  guard-Ensures c e refuse =
      weaken (raise_if-Ensures c e (λ w _ p. refuse w p)) (λ w p. p) (λ a w q. q.1) (λ e w q. q)
