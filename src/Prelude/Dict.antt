-- ===== src/Prelude/Dict.antt =====
-- A Python dict with text keys as an association list, in insertion order.
use Prim.Native.String.{String}
use mathlib.Core.Path.{◌≡◌, refl, subst₂}
use mathlib.Core.Option.{Option, none, some, some-injective}
use mathlib.Core.Logic.{inl, inr}
use mathlib.Core.List.{List, [], ◌∷◌}
use native.Mathlib.Omega.{arith}
use text.Mathlib.Text.{◌==◌}
use text.Mathlib.TextEquality.{eq_iff}
use vapivoiceassistant.Prelude.Tests.{Bool-cases, if◌then◌else◌}

abbrev pub Dict {ℓ} : Type ℓ → Type ℓ
Dict V = List (String × V)

module _ {ℓ} {V : Type ℓ} where
  -- `d.get(k)`
  unfoldable pub lookup : String → Dict V → Option V
  lookup k [] = none
  lookup k ((j, v) ∷ d) = if j == k then some v else lookup k d

  -- `d[k] = v`
  unfoldable pub insert : String → V → Dict V → Dict V
  insert k v [] = (k, v) ∷ []
  insert k v ((j, w) ∷ d) = if j == k then (k, v) ∷ d else (j, w) ∷ insert k v d

  -- `d.pop(k, None)`
  unfoldable pub remove : String → Dict V → Dict V
  remove k [] = []
  remove k ((j, v) ∷ d) = let rest = remove k d in if j == k then rest else (j, v) ∷ rest

  pub lookup-insert :
      (k j : String) (v : V) (d : Dict V)
      → lookup j (insert k v d) ≡ (if k == j then some v else lookup j d)
  unfolding lookup insert
  lookup-insert k j v [] = refl
  lookup-insert k j v ((i, w) ∷ d) =
      ground (arith, eq_iff k j, eq_iff i k, eq_iff i j, lookup-insert k j v d)

  pub lookup-remove :
      (k j : String) (d : Dict V) → lookup j (remove k d) ≡ (if k == j then none else lookup j d)
  unfolding lookup remove
  lookup-remove k j [] = ground arith
  lookup-remove k j ((i, v) ∷ d) =
      ground (arith, lookup-remove k j d, eq_iff i k, eq_iff i j, eq_iff k j)

abbrev pub AllEntries {ℓ κ} : {V : Type ℓ} → (String → V → Type κ) → Dict V → Type κ
AllEntries P [] = Unit
AllEntries P ((k, v) ∷ d) = P k v × AllEntries P d

-- What holds of every entry holds of the entry that is found.
pub lookup_elim {ℓ κ} :
    {V : Type ℓ} (P : String → V → Type κ) (d : Dict V) (s : String) {v : V}
    → AllEntries P d
    → lookup s d ≡ some v
    → P s v
unfolding lookup
lookup_elim P [] s h e = absurd (cc e)
lookup_elim P ((k, w) ∷ d) s {v} h e = elim (Bool-cases (k == s)) [
  | inl same ↦ subst₂ P ((eq_iff k s).0 same) (some-injective w v (rw same at e)) h.0
  | inr other ↦ lookup_elim P d s h.1 (rw other at e)
]

pub ruleset dict_laws = (lookup-insert, lookup-remove)
