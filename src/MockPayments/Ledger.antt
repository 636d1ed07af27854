-- ===== src/MockPayments/Ledger.antt =====
-- What the mock's refunds are: covered by what was paid, and given once per key.
use vapivoiceassistant.Prelude.{
  ℕ, String, ◌≡◌, refl, ap, sym, ◌∙◌, subst, Bool, true, false, not, Option, none, some, List, [],
  ◌∷◌, ◌==◌, eq_refl, eq_iff, arith, All, Bool-cases, inl, inr, if_elim, holds, if◌then◌else◌,
}
use mathlib.Core.Option.{some-injective}
use vapivoiceassistant.Prelude.Int.{ℤ, pos, ◌+ℤ◌, ◌≤ℤ◌, ltb_ℤ}
use vapivoiceassistant.Prelude.Dict.{Dict, lookup, insert, lookup-insert, AllEntries}
use vapivoiceassistant.Errors.{Result, ok, err, ok-injective, payment_provider_error}
use vapivoiceassistant.PaymentProvider.{RefundResult}
use vapivoiceassistant.MockPayments.{
  MockSession, MockPayments, change_session, session_with_intent, open_or_read,
  create_checkout_session, refund_session, refund_once, refund_payment, refund_result,
  change_with_intent, refunded_by, simulate_completion, simulate_expiry, opened, read_session,
  change_found, session_id_for, no_payments,
}

-- What callers do with the mock.
pub data MockOp : Type 0 where
  op_create : ℤ → String → String → ℕ → MockOp
  op_refund : String → ℤ → String → String → MockOp
  op_complete : String → Bool → String → MockOp
  op_expire : String → MockOp

choose :
    {A : Type 0} (P : A → Type 0) (c : Bool) {x y : A}
    → P x
    → (c ≡ false → P y)
    → P (if c then x else y)
choose P true h k = h
choose P false h k = k refl

-- No more has been refunded than the session's amount.
abbrev pub IsCovered : String → MockSession → Type 0
IsCovered _ s = s.refunded_amount ≤ℤ s.amount

read_same : (o : Option MockSession) (m : MockPayments) → (read_session o m).1 ≡ m
read_same none m = refl
read_same (some s) m = refl

change_keeps :
    (o : Option MockSession) (id : String) (f : MockSession → MockSession) (m : MockPayments)
    → (change_found o id f m).1.refunds ≡ m.refunds
change_keeps none id f m = refl
change_keeps (some s) id f m = refl

-- Sessions that are covered stay so when they are put in, and when they are changed.
insert-IsCovered :
    (k : String) (s : MockSession) (d : Dict MockSession)
    → IsCovered k s
    → AllEntries IsCovered d
    → AllEntries IsCovered (insert k s d)
unfolding insert
insert-IsCovered k s [] h c = (h, tt)
insert-IsCovered k s ((j, t) ∷ d) h c =
    if_elim (AllEntries IsCovered) (j == k) (h, c.1) (c.0, insert-IsCovered k s d h c.1)

change_session-IsCovered :
    (key : String) (f : MockSession → MockSession) (d : Dict MockSession)
    → ((s : MockSession) → IsCovered key s → IsCovered key (f s))
    → AllEntries IsCovered d
    → AllEntries IsCovered (change_session key f d)
unfolding change_session
change_session-IsCovered key f [] h c = tt
change_session-IsCovered key f ((j, t) ∷ d) h c =
    let rest = change_session-IsCovered key f d h c.1 in
    if_elim (AllEntries IsCovered) (j == key) (h t c.0, rest) (c.0, rest)

change_covers :
    (o : Option MockSession) (id : String) (f : MockSession → MockSession) (m : MockPayments)
    → ((s : MockSession) → IsCovered id s → IsCovered id (f s))
    → AllEntries IsCovered m.sessions
    → AllEntries IsCovered (change_found o id f m).1.sessions
change_covers none id f m h c = c
change_covers (some s) id f m h c = change_session-IsCovered id f m.sessions h c

-- The session that is found is the one that is changed.
change_with_intent-IsCovered :
    (intent : String) (f : MockSession → MockSession) (d : Dict MockSession) (s : MockSession)
    → session_with_intent intent d ≡ some s
    → (f s).refunded_amount ≤ℤ (f s).amount
    → AllEntries IsCovered d
    → AllEntries IsCovered (change_with_intent intent f d)
unfolding change_with_intent session_with_intent
change_with_intent-IsCovered intent f [] s e h c = tt
change_with_intent-IsCovered intent f ((j, t) ∷ d) s e h c =
    elim (Bool-cases (holds t.payment_intent_id intent)) [
      | inl hit ↦ rw hit (
        subst (λ (x : MockSession). (f x).refunded_amount ≤ℤ (f x).amount)
            (sym (some-injective _ _ (rw hit at e))) h,
        c.1,
      )
      | inr miss ↦ rw miss (c.0, change_with_intent-IsCovered intent f d s (rw miss at e) h c.1)
    ]

module _ (digest24 : String → String) where
  unfoldable pub run_mock : MockOp → MockPayments → MockPayments
  run_mock (op_create amount currency key now) m =
      (create_checkout_session digest24 amount currency key now m).1
  run_mock (op_refund intent amount currency key) m =
      (refund_payment digest24 intent amount currency key m).1
  run_mock (op_complete id paid intent) m = (simulate_completion id paid intent m).1
  run_mock (op_expire id) m = (simulate_expiry id m).1

  unfoldable pub run_mocks : List MockOp → MockPayments → MockPayments
  run_mocks [] m = m
  run_mocks (o ∷ os) m = run_mocks os (run_mock o m)

  -- What holds when a refund is refused, and when it is given, holds in any case.
  refund_session_elim :
      (P : Result RefundResult × MockPayments → Type 0) (o : Option MockSession) (intent : String)
      (amount : ℤ) (currency k : String) (m : MockPayments)
      → P (err (payment_provider_error "PAYMENT_REFUND_FAILED"), m)
      → ((s : MockSession)
          → o ≡ some s
          → ltb_ℤ s.amount (s.refunded_amount +ℤ amount) ≡ false
          → P (
            ok (refund_result digest24 amount currency k),
            record m {
              sessions = change_with_intent intent (refunded_by amount) m.sessions;
              refunds = insert k (refund_result digest24 amount currency k) m.refunds;
            },
          ))
      → P (refund_session digest24 o intent amount currency k m)
  refund_session_elim P none intent amount currency k m refused given = refused
  refund_session_elim P (some s) intent amount currency k m refused given =
      if_elim P (not s.payment_paid) refused
        (choose P (ltb_ℤ s.amount (s.refunded_amount +ℤ amount)) refused (given s refl))

  -- A refund that was given stays on the books.
  kept_elsewhere :
      (k key : String) (x r : RefundResult) (d : Dict RefundResult)
      → lookup k d ≡ none
      → lookup key d ≡ some r
      → lookup key (insert k x d) ≡ some r
  kept_elsewhere k key x r d free given = elim (Bool-cases (k == key)) [
    | inl same ↦ absurd (cc (subst (λ j. lookup j d ≡ none) ((eq_iff k key).0 same) free, given))
    | inr other ↦ lookup-insert k key x d ∙ rw other given
  ]

  once_keeps :
      (o : Option RefundResult) (intent : String) (amount : ℤ) (currency k key : String)
      (r : RefundResult) (m : MockPayments)
      → lookup k m.refunds ≡ o
      → lookup key m.refunds ≡ some r
      → lookup key (refund_once digest24 o intent amount currency k m).1.refunds ≡ some r
  once_keeps (some x) intent amount currency k key r m seen given = given
  once_keeps none intent amount currency k key r m seen given =
      refund_session_elim (λ x. lookup key x.1.refunds ≡ some r)
        (session_with_intent intent m.sessions) intent amount currency k m given
        (λ s _ _.
          kept_elsewhere k key (refund_result digest24 amount currency k) r m.refunds seen given)

  open_keeps :
      (o : Option String) (amount : ℤ) (currency k : String) (now : ℕ) (m : MockPayments)
      → (open_or_read digest24 o amount currency k now m).1.refunds ≡ m.refunds
  open_keeps none amount currency k now m = refl
  open_keeps (some id) amount currency k now m =
      ap (λ (x : MockPayments). x.refunds) (read_same (lookup id m.sessions) m)

  run_mock-keeps :
      (o : MockOp) (key : String) (r : RefundResult) (m : MockPayments)
      → lookup key m.refunds ≡ some r
      → lookup key (run_mock o m).refunds ≡ some r
  unfolding run_mock create_checkout_session refund_payment simulate_completion simulate_expiry
  run_mock-keeps (op_create amount currency k now) key r m given =
      ap (lookup key) (open_keeps (lookup k m.by_idempotency_key) amount currency k now m) ∙ given
  run_mock-keeps (op_refund intent amount currency k) key r m given =
      once_keeps (lookup k m.refunds) intent amount currency k key r m refl given
  run_mock-keeps (op_complete id paid intent) key r m given =
      ap (lookup key) (change_keeps (lookup id m.sessions) id _ m) ∙ given
  run_mock-keeps (op_expire id) key r m given =
      ap (lookup key) (change_keeps (lookup id m.sessions) id _ m) ∙ given

  run_mocks-keeps :
      (os : List MockOp) (key : String) (r : RefundResult) (m : MockPayments)
      → lookup key m.refunds ≡ some r
      → lookup key (run_mocks os m).refunds ≡ some r
  unfolding run_mocks
  run_mocks-keeps [] key r m given = given
  run_mocks-keeps (o ∷ os) key r m given =
      run_mocks-keeps os key r (run_mock o m) (run_mock-keeps o key r m given)

  once_stored :
      (o : Option RefundResult) (intent : String) (amount : ℤ) (currency k : String)
      (r : RefundResult) (m : MockPayments)
      → lookup k m.refunds ≡ o
      → (refund_once digest24 o intent amount currency k m).0 ≡ ok r
      → lookup k (refund_once digest24 o intent amount currency k m).1.refunds ≡ some r
  once_stored (some x) intent amount currency k r m seen e = seen ∙ ap some (ok-injective e)
  once_stored none intent amount currency k r m seen given =
      refund_session_elim (λ x. x.0 ≡ ok r → lookup k x.1.refunds ≡ some r)
        (session_with_intent intent m.sessions) intent amount currency k m (λ e. absurd (cc e))
        (λ s _ _ e.
          lookup-insert k k (refund_result digest24 amount currency k) m.refunds
          ∙ rw (eq_refl k) (ap some (ok-injective e)))
        given

  -- Once a refund has been given under a key, every later refund under that key gives the same
  -- result and changes nothing, whatever has happened in between and whatever is asked for.
  pub refund_payment-replays :
      (intent intent' : String) (amount amount' : ℤ) (currency currency' key : String)
      (r : RefundResult) (m : MockPayments) (os : List MockOp)
      → (refund_payment digest24 intent amount currency key m).0 ≡ ok r
      → let m' = run_mocks os (refund_payment digest24 intent amount currency key m).1 in
        refund_payment digest24 intent' amount' currency' key m' ≡ (ok r, m')
  unfolding refund_payment
  refund_payment-replays intent intent' amount amount' currency currency' key r m os given =
      let m1 = (refund_once digest24 (lookup key m.refunds) intent amount currency key m).1 in
      let stored = once_stored (lookup key m.refunds) intent amount currency key r m refl given in
      ap (λ o. refund_once digest24 o intent' amount' currency' key (run_mocks os m1))
        (run_mocks-keeps os key r m1 stored)

  open_covers :
      (o : Option String) (amount : ℤ) (currency k : String) (now : ℕ) (m : MockPayments)
      → pos 0 ≤ℤ amount
      → AllEntries IsCovered m.sessions
      → AllEntries IsCovered (open_or_read digest24 o amount currency k now m).1.sessions
  open_covers none amount currency k now m sane c =
      let id = session_id_for digest24 k in
      insert-IsCovered id (opened id amount currency now) m.sessions sane c
  open_covers (some id) amount currency k now m sane c =
      subst (λ (x : MockPayments). AllEntries IsCovered x.sessions)
        (sym (read_same (lookup id m.sessions) m)) c

  once_covers :
      (o : Option RefundResult) (intent : String) (amount : ℤ) (currency k : String)
      (m : MockPayments)
      → AllEntries IsCovered m.sessions
      → AllEntries IsCovered (refund_once digest24 o intent amount currency k m).1.sessions
  once_covers (some r) intent amount currency k m c = c
  once_covers none intent amount currency k m c =
      refund_session_elim (λ x. AllEntries IsCovered x.1.sessions)
        (session_with_intent intent m.sessions) intent amount currency k m c
        (λ s found fits.
          change_with_intent-IsCovered intent (refunded_by amount) m.sessions s found (ground arith)
            c)

  -- What each operation may ask for: an amount that is not negative.
  abbrev pub IsSane : MockOp → Type 0
  IsSane (op_create amount currency key now) = pos 0 ≤ℤ amount
  IsSane (op_refund intent amount currency key) = Unit
  IsSane (op_complete id paid intent) = Unit
  IsSane (op_expire id) = Unit

  run_mock-IsCovered :
      (o : MockOp) (m : MockPayments)
      → IsSane o
      → AllEntries IsCovered m.sessions
      → AllEntries IsCovered (run_mock o m).sessions
  unfolding run_mock create_checkout_session refund_payment simulate_completion simulate_expiry
  run_mock-IsCovered (op_create amount currency k now) m sane c =
      open_covers (lookup k m.by_idempotency_key) amount currency k now m sane c
  run_mock-IsCovered (op_refund intent amount currency k) m sane c =
      once_covers (lookup k m.refunds) intent amount currency k m c
  run_mock-IsCovered (op_complete id paid intent) m sane c =
      change_covers (lookup id m.sessions) id _ m (λ s h. h) c
  run_mock-IsCovered (op_expire id) m sane c =
      change_covers (lookup id m.sessions) id _ m (λ s h. h) c

  run_covers :
      (os : List MockOp) (m : MockPayments)
      → All IsSane os
      → AllEntries IsCovered m.sessions
      → AllEntries IsCovered (run_mocks os m).sessions
  unfolding run_mocks
  run_covers [] m sane c = c
  run_covers (o ∷ os) m sane c =
      run_covers os (run_mock o m) sane.1 (run_mock-IsCovered o m sane.0 c)

  -- However the mock is used with amounts that are not negative, no session is refunded by more than
  -- its amount.
  pub run_mocks-IsCovered :
      (os : List MockOp) → All IsSane os → AllEntries IsCovered (run_mocks os no_payments).sessions
  unfolding no_payments
  run_mocks-IsCovered os sane = run_covers os no_payments sane tt
