-- ===== src/Pnr.antt =====
-- The PNR of a booking: apps/api/app/core/pnr.py. What `secrets` draws is an argument, a candidate
-- for each attempt.
use vapivoiceassistant.Prelude.{
  ℕ, zero, suc, ◌+◌, ◌<◌, String, ◌≡◌, refl, subst, Bool, true, false, arith, Bool-cases, inl, inr,
  if◌then◌else◌,
}
use vapivoiceassistant.Errors.{Result, ok, err, ok-injective, is_ok, runtime_error}

abbrev pub max_attempts : ℕ
max_attempts = 25

-- The attempts that are left, and the number of the next one.
unfoldable pub attempt_pnr : (ℕ → String) → (String → Bool) → ℕ → ℕ → Result String
attempt_pnr generate exists zero i = err runtime_error
attempt_pnr generate exists (suc n) i =
    let rest = attempt_pnr generate exists n (suc i) in
    if exists (generate i) then rest else ok (generate i)

unfoldable pub generate_unique_pnr : (ℕ → String) → (String → Bool) → Result String
generate_unique_pnr generate exists = attempt_pnr generate exists max_attempts 0

attempt_unique :
    (generate : ℕ → String) (exists : String → Bool) (n i : ℕ) (pnr : String)
    → attempt_pnr generate exists n i ≡ ok pnr
    → exists pnr ≡ false
unfolding attempt_pnr
attempt_unique generate exists zero i pnr e = absurd (cc e)
attempt_unique generate exists (suc n) i pnr e = elim (Bool-cases (exists (generate i))) [
  | inl taken ↦ attempt_unique generate exists n (suc i) pnr (rw taken at e)
  | inr free ↦ subst (λ p. exists p ≡ false) (ok-injective (rw free at e)) free
]

add_zero : (i : ℕ) → i + 0 ≡ i
add_zero i = omega arith

zero_add : (k : ℕ) → k ≡ 0 + k
zero_add k = omega arith

shift : (i k : ℕ) → i + suc k ≡ suc i + k
shift i k = omega arith

attempt_succeeds :
    (generate : ℕ → String) (exists : String → Bool) (n i k : ℕ)
    → k < n
    → exists (generate (i + k)) ≡ false
    → is_ok (attempt_pnr generate exists n i) ≡ true
unfolding attempt_pnr
attempt_succeeds generate exists zero i k h free = absurd (omega (arith, h))
attempt_succeeds generate exists (suc n) i zero h free =
    rw (subst (λ j. exists (generate j) ≡ false) (add_zero i) free) refl
attempt_succeeds generate exists (suc n) i (suc k) h free =
    elim (Bool-cases (exists (generate i))) [
      | inl taken ↦ rw taken (
          attempt_succeeds generate exists n (suc i) k (omega arith)
            (subst (λ j. exists (generate j) ≡ false) (shift i k) free))
      | inr now_free ↦ rw now_free refl
    ]

-- A PNR that is given out does not exist yet.
pub generate_unique_pnr_unique :
    (generate : ℕ → String) (exists : String → Bool) (pnr : String)
    → generate_unique_pnr generate exists ≡ ok pnr
    → exists pnr ≡ false
unfolding generate_unique_pnr
generate_unique_pnr_unique generate exists = attempt_unique generate exists max_attempts 0

-- A PNR is given out if one of the first 25 candidates does not exist.
pub generate_unique_pnr-succeeds :
    (generate : ℕ → String) (exists : String → Bool) (k : ℕ)
    → k < max_attempts
    → exists (generate k) ≡ false
    → is_ok (generate_unique_pnr generate exists) ≡ true
unfolding generate_unique_pnr
generate_unique_pnr-succeeds generate exists k below free =
    attempt_succeeds generate exists max_attempts 0 k below
      (subst (λ j. exists (generate j) ≡ false) (zero_add k) free)
