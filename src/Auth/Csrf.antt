-- ===== src/Auth/Csrf.antt =====
-- The signed double-submit cookie: apps/api/app/core/security/csrf.py. The HMAC, of a key and a
-- message, and the draw of a nonce are arguments.
use Prim.Native.Char.{Char, code}
use text.Mathlib.TextLemmas.{nil-append, cons-append, cons≢nil}
use vapivoiceassistant.Prelude.{
  String, ◌≡◌, refl, ◌∙◌, ap, Bool, true, false, ◌&&◌, Option, none, some, List, [], ◌∷◌, ◌==◌,
  contains, join, truthy_text, eqb, eq_refl, eq_iff, Bool-cases, inl, inr, not, if◌then◌else◌,
}
use vapivoiceassistant.Prelude.Text.{upper_text}

-- `SAFE_METHODS`
abbrev pub safe_methods : List String
safe_methods = "GET" ∷ "HEAD" ∷ "OPTIONS" ∷ []

unfoldable pub requires_csrf_check : String → Bool
unfolding upper_text
requires_csrf_check method = not (contains (upper_text method) safe_methods)

abbrev cons_first : String → Option (String × String) → Option (String × String)
cons_first c none = none
cons_first c (some (s, t)) = some (join c s, t)

-- `value.split(".", 1)` in two parts; `none` where there is no dot.
unfoldable pub split_dot : String → Option (String × String)
split_dot String.[] = none
split_dot (String.◌∷◌ c s) =
    let rest = cons_first (String.◌∷◌ c String.[]) (split_dot s) in
    if eqb (code c) b'.' then some ("", s) else rest

module _ (mac : String → String → String) where
  unfoldable pub sign : String → String → String → String
  sign session_id nonce secret_key = mac secret_key (join session_id (join ":" nonce))

  -- The value of the cookie.
  unfoldable pub issue_csrf_token : String → String → String → String
  issue_csrf_token nonce session_id secret_key =
      join nonce (join "." (sign session_id nonce secret_key))

  abbrev signed_by : String → String → Option (String × String) → Bool
  signed_by session_id secret_key none = false
  signed_by session_id secret_key (some (nonce, signature)) =
      sign session_id nonce secret_key == signature

  abbrev verify_values : String → String → Option String → Option String → Bool
  verify_values session_id secret_key (some cookie) (some header) =
      cookie == header && signed_by session_id secret_key (split_dot cookie)
  verify_values session_id secret_key _ _ = false

  unfoldable pub verify_csrf : String → String → Option String → Option String → Bool
  unfolding split_dot sign
  verify_csrf session_id secret_key cookie_value header_value =
      verify_values session_id secret_key (truthy_text cookie_value) (truthy_text header_value)

-- A text with no dot in it.
unfoldable pub has_dot : String → Bool
has_dot String.[] = false
has_dot (String.◌∷◌ c s) = if eqb (code c) b'.' then true else has_dot s

dot-cons : (t : String) → join "." t ≡ String.◌∷◌ "." t
dot-cons t = cons-append "." "" t ∙ ap (λ s. String.◌∷◌ "." s) (nil-append t)

split_dot-join : (s t : String) → has_dot s ≡ false → split_dot (join s (join "." t)) ≡ some (s, t)
unfolding split_dot has_dot
split_dot-join String.[] t h = rw (nil-append (join "." t), dot-cons t) refl
split_dot-join (String.◌∷◌ c s) t h = elim (Bool-cases (eqb (code c) b'.')) [
  | inl dot ↦ absurd (cc (rw dot at h))
  | inr plain ↦
      rw (cons-append c s (join "." t), plain, split_dot-join s t (rw plain at h))
        (ap (λ u. some (u, t)) (cons-append c "" s ∙ ap (λ u. String.◌∷◌ c u) (nil-append s)))
]

cons_is_not_empty : (c : Char) (s : String) → (String.◌∷◌ c s == "") ≡ false
cons_is_not_empty c s = elim (Bool-cases (String.◌∷◌ c s == "")) [
  | inl empty ↦ absurd (cons≢nil ((eq_iff (String.◌∷◌ c s) "").0 empty))
  | inr more ↦ more
]

join_is_not_empty : (s t : String) → (join s (join "." t) == "") ≡ false
join_is_not_empty String.[] t = rw (nil-append (join "." t), dot-cons t) (cons_is_not_empty "." t)
join_is_not_empty (String.◌∷◌ c s) t =
    rw (cons-append c s (join "." t)) (cons_is_not_empty c (join s (join "." t)))

-- A token that was issued for a session is presented, as cookie and as header, in a request of a
-- session. It is good exactly if the codes of the texts "session:nonce" of the two sessions are the
-- same. The nonce has no dot in it.
pub verify_csrf-issue_csrf_token :
    (mac : String → String → String) (nonce session_id other secret_key : String)
    → has_dot nonce ≡ false
    → let token = issue_csrf_token mac nonce session_id secret_key in
      verify_csrf mac other secret_key (some token) (some token) ≡ (
        mac secret_key (join other (join ":" nonce))
        == mac secret_key (join session_id (join ":" nonce)))
unfolding verify_csrf issue_csrf_token sign
verify_csrf-issue_csrf_token mac nonce session_id other secret_key plain =
    let signature = sign mac session_id nonce secret_key in
    rw
      (
        join_is_not_empty nonce signature,
        eq_refl (join nonce (join "." signature)),
        split_dot-join nonce signature plain,
      )
      refl
