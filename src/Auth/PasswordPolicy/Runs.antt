-- ===== src/Auth/PasswordPolicy/Runs.antt =====
-- The loop of `_is_sequential_run` finds exactly the runs of six consecutive characters.
use vapivoiceassistant.Prelude.{
  ℕ, zero, suc, ◌+◌, ◌≤◌, ◌≡◌, refl, ◌∙◌, Bool-cases, inl, inr, Bool, true, false, ◌&&◌, ◌||◌, List,
  [], ◌∷◌, arith, eqb, leb, length, if◌then◌else◌,
}
use vapivoiceassistant.Auth.PasswordPolicy.{has_run_from, is_sequential_run, run_length}

-- The next `k` characters go up, or down, one by one from `c`.
unfoldable pub climbs : ℕ → ℕ → List ℕ → Bool
climbs zero c xs = true
climbs (suc k) c [] = false
climbs (suc k) c (x ∷ xs) = eqb x (c + 1) && climbs k x xs

unfoldable pub falls : ℕ → ℕ → List ℕ → Bool
falls zero c xs = true
falls (suc k) c [] = false
falls (suc k) c (x ∷ xs) = eqb (x + 1) c && falls k x xs

-- Somewhere six characters go up or down one by one.
unfoldable pub has_run : List ℕ → Bool
has_run [] = false
has_run (x ∷ xs) = climbs 5 x xs || falls 5 x xs || has_run xs

climbs_fewer : (k j c : ℕ) (xs : List ℕ) → j ≤ k → climbs k c xs ≡ true → climbs j c xs ≡ true
unfolding climbs
climbs_fewer k zero c xs h e = refl
climbs_fewer zero (suc j) c xs h e = absurd (omega arith)
climbs_fewer (suc k) (suc j) c [] h e = e
climbs_fewer (suc k) (suc j) c (x ∷ xs) h e = ground (arith, climbs_fewer k j x xs)

falls_fewer : (k j c : ℕ) (xs : List ℕ) → j ≤ k → falls k c xs ≡ true → falls j c xs ≡ true
unfolding falls
falls_fewer k zero c xs h e = refl
falls_fewer zero (suc j) c xs h e = absurd (omega arith)
falls_fewer (suc k) (suc j) c [] h e = e
falls_fewer (suc k) (suc j) c (x ∷ xs) h e = ground (arith, falls_fewer k j x xs)

-- A run of six is also a run of fewer.
absorb_climb :
    (six fewer f h : Bool)
    → (six ≡ true → fewer ≡ true)
    → (fewer || f || h) ≡ (fewer || false || (six || f || h))
absorb_climb six fewer f h k = ground (arith, k)

absorb_fall :
    (c six fewer h : Bool)
    → (six ≡ true → fewer ≡ true)
    → (c || fewer || h) ≡ (false || fewer || (c || six || h))
absorb_fall c six fewer h k = ground (arith, k)

-- One more character of a run that lacked `a` of six.
climb_step :
    (u a x : ℕ) (xs : List ℕ)
    → u + a ≡ 5
    → ((b : ℕ)
        → a ≡ suc b
        → has_run_from (u + 1) 1 x xs ≡ (climbs (suc b) x xs || falls 5 x xs || has_run xs))
    → (if leb run_length (u + 1) then true else has_run_from (u + 1) 1 x xs)
      ≡ (climbs a x xs || false || (climbs 5 x xs || falls 5 x xs || has_run xs))
unfolding climbs
climb_step u zero x xs h ih =
    let full : leb run_length (u + 1) ≡ true = ground arith in rw full refl
climb_step u (suc b) x xs h ih =
    let room : leb run_length (u + 1) ≡ false = ground arith in
    rw room (
      ih b refl
      ∙ absorb_climb (climbs 5 x xs) (climbs (suc b) x xs) (falls 5 x xs) (has_run xs)
          (climbs_fewer 5 (suc b) x xs (omega arith)))

fall_step :
    (v d x : ℕ) (xs : List ℕ)
    → v + d ≡ 5
    → ((b : ℕ)
        → d ≡ suc b
        → has_run_from 1 (v + 1) x xs ≡ (climbs 5 x xs || falls (suc b) x xs || has_run xs))
    → (if leb run_length (v + 1) then true else has_run_from 1 (v + 1) x xs)
      ≡ (false || falls d x xs || (climbs 5 x xs || falls 5 x xs || has_run xs))
unfolding falls
fall_step v zero x xs h ih = let full : leb run_length (v + 1) ≡ true = ground arith in rw full refl
fall_step v (suc b) x xs h ih =
    let room : leb run_length (v + 1) ≡ false = ground arith in
    rw room (
      ih b refl
      ∙ absorb_fall (climbs 5 x xs) (falls 5 x xs) (falls (suc b) x xs) (has_run xs)
          (falls_fewer 5 (suc b) x xs (omega arith)))

-- The runs that end at `c` have the lengths `u` and `v`, and lack `a` and `d` of six.
has_run_from_lem :
    (u v a d c : ℕ) (xs : List ℕ)
    → u + a ≡ 5
    → v + d ≡ 5
    → has_run_from u v c xs ≡ (climbs (suc a) c xs || falls (suc d) c xs || has_run xs)
unfolding has_run_from has_run climbs falls
has_run_from_lem u v a d c [] ha hd = refl
has_run_from_lem u v a d c (x ∷ xs) ha hd = elim (Bool-cases (eqb x (c + 1))) [
  | inl up ↦
      let apart : eqb (x + 1) c ≡ false = ground arith in
      rw (up, apart)
        (climb_step u a x xs ha (λ b e. has_run_from_lem (u + 1) 1 b 4 x xs (omega arith) refl))
  | inr level ↦ elim (Bool-cases (eqb (x + 1) c)) [
    | inl down ↦
        rw (level, down)
          (fall_step v d x xs hd (λ b e. has_run_from_lem 1 (v + 1) 4 b x xs refl (omega arith)))
    | inr stays ↦ rw (level, stays) (has_run_from_lem 1 1 4 4 x xs refl refl)
  ]
]

climbs_long : (k c : ℕ) (xs : List ℕ) → climbs k c xs ≡ true → k ≤ length xs
unfolding climbs
climbs_long zero c xs e = omega arith
climbs_long (suc k) c [] e = absurd (cc e)
climbs_long (suc k) c (x ∷ xs) e = ground (arith, climbs_long k x xs)

falls_long : (k c : ℕ) (xs : List ℕ) → falls k c xs ≡ true → k ≤ length xs
unfolding falls
falls_long zero c xs e = omega arith
falls_long (suc k) c [] e = absurd (cc e)
falls_long (suc k) c (x ∷ xs) e = ground (arith, falls_long k x xs)

has_run_long : (xs : List ℕ) → has_run xs ≡ true → 6 ≤ length xs
unfolding has_run
has_run_long [] e = absurd (cc e)
has_run_long (x ∷ xs) e = ground (arith, climbs_long 5 x xs, falls_long 5 x xs, has_run_long xs)

loop_lem : (x : ℕ) (xs : List ℕ) → has_run_from 1 1 x xs ≡ has_run (x ∷ xs)
unfolding has_run
loop_lem x xs = has_run_from_lem 1 1 4 4 x xs (refl) (refl)

-- The loop with its counters says that a password is sequential exactly when somewhere in it six
-- characters follow each other, each one above or each one below the one before.
pub is_sequential_run-eq-has_run : (xs : List ℕ) → is_sequential_run xs ≡ has_run xs
unfolding is_sequential_run has_run
is_sequential_run-eq-has_run [] = refl
is_sequential_run-eq-has_run (x ∷ xs) = ground (arith, loop_lem x xs, has_run_long (x ∷ xs))
