-- ===== src/Prelude/Lists.antt =====
-- Lists measured by native numbers, Boolean searches that run in tests, and predicates on all
-- elements by recursion.
use Prim.Native.Nat.{ℕ, suc, ◌+◌}
use Prim.Native.String.{String}
use mathlib.Core.Path.{◌≡◌, refl, subst, sym}
use mathlib.Core.Logic.{◌⊎◌, inl, inr}
use mathlib.Core.Bool.{Bool, true, false, ◌&&◌, ◌||◌}
use mathlib.Core.List.{List, [], ◌∷◌, ◌++◌}
use mathlib.Core.Option.{Option, none, some}
use native.Mathlib.Omega.{arith}
use text.Mathlib.Text.{◌==◌}
use vapivoiceassistant.Prelude.Tests.{if◌then◌else◌, Bool-cases}
use text.Mathlib.TextEquality.{eq_iff}

module _ {ℓ} {A : Type ℓ} where
  abbrev pub length : List A → ℕ
  length [] = 0
  length (x ∷ xs) = suc (length xs)

  -- `any(p(x) for x in xs)`
  abbrev pub any : (A → Bool) → List A → Bool
  any p [] = false
  any p (x ∷ xs) = p x || any p xs

  -- `all(p(x) for x in xs)`
  abbrev pub all : (A → Bool) → List A → Bool
  all p [] = true
  all p (x ∷ xs) = p x && all p xs

  -- `next((x for x in xs if p(x)), None)`
  abbrev pub find : (A → Bool) → List A → Option A
  find p [] = none
  find p (x ∷ xs) = if p x then some x else find p xs

  -- `[x for x in xs if p(x)]`
  abbrev pub keep : (A → Bool) → List A → List A
  keep p [] = []
  keep p (x ∷ xs) = let rest = keep p xs in if p x then x ∷ rest else rest

  -- A change of the elements with the property.
  unfoldable pub change : (A → Bool) → (A → A) → List A → List A
  change own f [] = []
  change own f (x ∷ xs) = (if own x then f x else x) ∷ change own f xs

  abbrev pub changed : (A → Bool) → (A → A) → Option A → Option A
  changed own f none = none
  changed own f (some x) = some (if own x then f x else x)

  -- A search that the change does not affect finds the changed element.
  pub find-change :
      (cond own : A → Bool) (f : A → A) (xs : List A)
      → ((x : A) → cond (f x) ≡ cond x)
      → find cond (change own f xs) ≡ changed own f (find cond xs)
  unfolding change
  find-change cond own f [] same = refl
  find-change cond own f (x ∷ xs) same =
      let rest = find-change cond own f xs same in
      let here = same x in
      elim (Bool-cases (own x)) [
        | inl e ↦ rw e (elim (Bool-cases (cond x)) [
          | inl c ↦ rw (here, c) (rw e refl)
          | inr c ↦ rw (here, c) rest
        ])
        | inr e ↦ rw e (elim (Bool-cases (cond x)) [ inl c ↦ rw c (rw e refl) | inr c ↦ rw c rest ])
      ]

  pub length-append : (xs ys : List A) → length (xs ++ ys) ≡ length xs + length ys
  length-append [] ys = omega arith
  length-append (x ∷ xs) ys = omega (arith, length-append xs ys)

abbrev pub All {ℓ κ} : {A : Type ℓ} → (A → Type κ) → List A → Type κ
All P [] = Unit
All P (x ∷ xs) = P x × All P xs

or_cases : (a b : Bool) → (a || b) ≡ true → (a ≡ true) ⊎ (b ≡ true)
or_cases a b h = ground arith

-- `s in xs`
unfoldable pub contains : String → List String → Bool
contains s [] = false
contains s (x ∷ xs) = s == x || contains s xs

-- What holds of each listed text holds of a text that the list contains.
pub contains_elim {ℓ} :
    (P : String → Type ℓ) (xs : List String) (s : String) → All P xs → contains s xs ≡ true → P s
unfolding contains
contains_elim P [] s h e = absurd (cc e)
contains_elim P (x ∷ xs) s h e = elim (or_cases (s == x) (contains s xs) e) [
  | inl same ↦ subst P (sym ((eq_iff s x).0 same)) h.0
  | inr rest ↦ contains_elim P xs s h.1 rest
]

pub contains-nil : (s : String) → contains s [] ≡ false
unfolding contains
contains-nil s = refl
