-- ===== src/Auth/PasswordPolicy.antt =====
-- The password policy: apps/api/app/core/security/password_policy.py. A text is walked by its code
-- points; a problem is a constructor in place of its message.
pub mod Runs
use vapivoiceassistant.Prelude.{
  ℕ, suc, ◌+◌, max, String, Bool, true, false, not, ◌&&◌, ◌||◌, Option, none, some, List, [], ◌∷◌,
  ◌++◌, length, any, contains, ltb, leb, eqb, truthy_text, if◌then◌else◌,
}
use vapivoiceassistant.Prelude.Text.{codes, lower_text}

abbrev pub min_length : ℕ
min_length = 12

abbrev pub max_length : ℕ
max_length = 256

abbrev pub common_passwords : List String
common_passwords =
    "password" ∷ "password1" ∷ "password123" ∷ "123456" ∷ "12345678" ∷ "123456789" ∷ "qwerty"
    ∷ "qwerty123" ∷ "letmein" ∷ "welcome" ∷ "welcome123" ∷ "admin" ∷ "administrator" ∷ "iloveyou"
    ∷ "monkey" ∷ "dragon" ∷ "football" ∷ "baseball" ∷ "trustno1" ∷ "sunshine" ∷ "princess"
    ∷ "abc123" ∷ "abcd1234" ∷ "changeme" ∷ "charter123" ∷ "airplane123" ∷ "passw0rd" ∷ "p@ssw0rd"
    ∷ "000000" ∷ "11111111" ∷ []

pub data Problem : Type 0 where
  too_short too_long too_common too_uniform sequential : Problem
  -- with the label of the field
  contains_field : String → Problem

-- `run_length`
abbrev pub run_length : ℕ
run_length = 6

-- The loop, from the character `prev` on, with the lengths of the two runs that end there. The
-- lengths before are below `run_length`, so `best` is the larger of the two.
unfoldable pub has_run_from : ℕ → ℕ → ℕ → List ℕ → Bool
has_run_from ascending descending prev [] = false
has_run_from ascending descending prev (curr ∷ rest) =
    let up = has_run_from (ascending + 1) 1 curr rest in
    let down = has_run_from 1 (descending + 1) curr rest in
    let restart = has_run_from 1 1 curr rest in
    if eqb curr (prev + 1)
    then (if leb run_length (ascending + 1) then true else up)
    else if eqb (curr + 1) prev
    then (if leb run_length (descending + 1) then true else down)
    else restart

abbrev loop_over : List ℕ → Bool
loop_over [] = false
loop_over (c ∷ rest) = has_run_from 1 1 c rest

unfoldable pub is_sequential_run : List ℕ → Bool
unfolding has_run_from
is_sequential_run lowered = if ltb (length lowered) run_length then false else loop_over lowered

abbrev mem : ℕ → List ℕ → Bool
mem c xs = any (eqb c) xs

-- `len(set(password))`
unfoldable pub distinct : List ℕ → ℕ
distinct [] = 0
distinct (c ∷ rest) = if mem c rest then distinct rest else suc (distinct rest)

abbrev is_prefix : List ℕ → List ℕ → Bool
is_prefix [] ys = true
is_prefix (x ∷ xs) [] = false
is_prefix (x ∷ xs) (y ∷ ys) = eqb x y && is_prefix xs ys

-- `part in text`
unfoldable pub occurs_in : List ℕ → List ℕ → Bool
occurs_in part [] = is_prefix part []
occurs_in part (c ∷ rest) = is_prefix part (c ∷ rest) || occurs_in part rest

-- `email.split("@", 1)[0]`, which is the whole text where there is no "@".
unfoldable pub local_part : List ℕ → List ℕ
local_part [] = []
local_part (c ∷ rest) = if eqb c b'@' then [] else c ∷ local_part rest

-- `value and len(value) >= 3 and value.lower() in lowered`, of a value and its lower case.
unfoldable pub repeats_field : List ℕ → List ℕ → Bool
repeats_field value lowered = leb 3 (length value) && occurs_in value lowered

abbrev pub problem_if : Bool → Problem → List Problem
problem_if true p = p ∷ []
problem_if false p = []

abbrev lowered_field : Option String → List ℕ
lowered_field none = []
lowered_field (some s) = codes (lower_text s)

-- The problems in the order of the checks; the password is good if there are none.
unfoldable pub validate_password_strength :
    String → Option String → Option String → Option String → List Problem
validate_password_strength password email first_name last_name =
    let size = length (codes password) in
    let lowered = codes (lower_text password) in
    problem_if (ltb size min_length) too_short
    ++ (problem_if (ltb max_length size) too_long
        ++ (problem_if (contains (lower_text password) common_passwords) too_common
            ++ (problem_if (leb (distinct (codes password)) 3 && leb min_length size) too_uniform
                ++ (problem_if (is_sequential_run lowered) sequential
                    ++ (problem_if (repeats_field (local_part (lowered_field email)) lowered)
                          (contains_field "email")
                        ++ (problem_if (repeats_field (lowered_field first_name) lowered)
                              (contains_field "first name")
                            ++ problem_if (repeats_field (lowered_field last_name) lowered)
                                (contains_field "last name")))))))
