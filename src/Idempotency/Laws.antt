-- ===== src/Idempotency/Laws.antt =====
-- A key of idempotency.py is given to one caller, until its operation fails.
use vapivoiceassistant.Prelude.{
  ℕ, ◌+◌, ◌≤◌, String, ◌≡◌, refl, ap, sym, subst, true, false, Option, none, some, List, [], ◌∷◌,
  arith, All, if◌then◌else◌, eq_refl, ◌==◌, eq_iff, is_some, ◌&&◌, not,
}
use vapivoiceassistant.Prelude.Dict.{Dict, lookup, lookup-insert, lookup-remove}
use vapivoiceassistant.Idempotency.{
  StoredResult, IdempotencyStore, begin, begin_with, complete, fail,
}

pub data Op : Type 0 where
  op_begin : String → ℕ → Op
  op_complete : String → Dict String → ℕ → Op
  op_fail : String → Op

unfoldable pub run_op : Op → IdempotencyStore → IdempotencyStore
run_op (op_begin k now) s = (begin k now s).1
run_op (op_complete k r now) s = complete k r now s
run_op (op_fail k) s = fail k s

-- The operation takes the key: a `begin` of it that answers `None`.
unfoldable pub takes : String → Op → IdempotencyStore → ℕ
takes k (op_begin j now) s = if j == k && not (is_some (begin j now s).0) then 1 else 0
takes k _ s = 0

-- How often the key is taken in a sequence of operations.
unfoldable pub times_taken : String → List Op → IdempotencyStore → ℕ
times_taken k [] s = 0
times_taken k (o ∷ os) s = takes k o s + times_taken k os (run_op o s)

abbrev pub Spares : String → Op → Type 0
Spares k (op_fail j) = (j == k) ≡ false
Spares k _ = Unit

-- 0 if the store knows the key, and 1 if not.
abbrev free : String → IdempotencyStore → ℕ
free k s = if is_some (lookup k s) then 0 else 1

takes-free :
    (k : String) (o : Op) (s : IdempotencyStore)
    → Spares k o
    → takes k o s + free k (run_op o s) ≤ free k s
unfolding takes run_op begin complete fail
takes-free k (op_begin j now) s h = ground (
  arith,
  eq_iff j k,
  lookup-insert j k (record { status = "in_progress"; result = none; created_at = now }) s,
)
takes-free k (op_complete j r now) s h = ground (
  arith,
  lookup-insert j k (record { status = "completed"; result = some r; created_at = now }) s,
)
takes-free k (op_fail j) s h = ground (arith, lookup-remove j k s)

-- Whatever the callers do with the store, a key is taken at most once until its operation fails,
-- and never if the store knows it from before.
pub times_taken-le :
    (k : String) (os : List Op) (s : IdempotencyStore)
    → All (Spares k) os
    → times_taken k os s ≤ (if is_some (lookup k s) then 0 else 1)
unfolding times_taken
times_taken-le k [] s h = omega arith
times_taken-le k (o ∷ os) s h =
    omega (arith, takes-free k o s h.0, times_taken-le k os (run_op o s) h.1)

begin_answer :
    (k : String) (now : ℕ) (s : IdempotencyStore) (o : Option StoredResult)
    → lookup k s ≡ o
    → is_some (begin_with o k now s).0 ≡ true
    → is_some (lookup k (begin_with o k now s).1) ≡ true
unfolding begin_with
begin_answer k now s none e h = absurd (cc h)
begin_answer k now s (some r) e h = subst (λ o. is_some o ≡ true) (sym e) h

-- `begin` answers with a result only for a key that the store keeps.
pub begin-remembers :
    (k : String) (now : ℕ) (s : IdempotencyStore)
    → is_some (begin k now s).0 ≡ true
    → is_some (lookup k (begin k now s).1) ≡ true
unfolding begin
begin-remembers k now s h = begin_answer k now s (lookup k s) refl h

-- `begin` leaves a store alone that knows the key, and answers with what it knows.
pub begin-known :
    (k : String) (now : ℕ) (s : IdempotencyStore) {r : StoredResult}
    → lookup k s ≡ some r
    → begin k now s ≡ (some r, s)
unfolding begin begin_with
begin-known k now s e = ap (λ o. begin_with o k now s) e

pub complete-remembers :
    (k : String) (result : Dict String) (now : ℕ) (s : IdempotencyStore)
    → is_some (lookup k (complete k result now s)) ≡ true
unfolding complete
complete-remembers k result now s =
    let stored : StoredResult = record {
      status = "completed";
      result = some result;
      created_at = now;
    } in
    let found = lookup-insert k k stored s in ground (arith, eq_refl k)

answer_with :
    (k : String) (now : ℕ) (s : IdempotencyStore) (o : Option StoredResult)
    → (begin_with o k now s).0 ≡ o
unfolding begin_with
answer_with k now s none = refl
answer_with k now s (some r) = refl

-- `begin` answers with what the store knew.
pub begin-lookup : (k : String) (now : ℕ) (s : IdempotencyStore) → (begin k now s).0 ≡ lookup k s
unfolding begin
begin-lookup k now s = answer_with k now s (lookup k s)

-- The store knows the key.
abbrev pub Knows : String → IdempotencyStore → Type 0
Knows k s = is_some (lookup k s) ≡ true

pub complete-Knows :
    (k j : String) (result : Dict String) (now : ℕ) (s : IdempotencyStore)
    → Knows k s
    → Knows k (complete j result now s)
unfolding complete
complete-Knows k j result now s h =
    let stored : StoredResult = record {
      status = "completed";
      result = some result;
      created_at = now;
    } in
    let found = lookup-insert j k stored s in ground arith

begin_with-Knows :
    (k j : String) (now : ℕ) (s : IdempotencyStore) (o : Option StoredResult)
    → Knows k s
    → Knows k (begin_with o j now s).1
unfolding begin_with
begin_with-Knows k j now s (some r) h = h
begin_with-Knows k j now s none h =
    let stored : StoredResult = record {
      status = "in_progress";
      result = none;
      created_at = now;
    } in
    let found = lookup-insert j k stored s in ground arith

pub begin-Knows :
    (k j : String) (now : ℕ) (s : IdempotencyStore) → Knows k s → Knows k (begin j now s).1
unfolding begin
begin-Knows k j now s h = begin_with-Knows k j now s (lookup j s) h

pub fail-Knows :
    (k j : String) (s : IdempotencyStore) → (j == k) ≡ false → Knows k s → Knows k (fail j s)
unfolding fail
fail-Knows k j s other h = let found = lookup-remove j k s in ground arith
