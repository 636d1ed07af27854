-- ===== src/Vapi/WebhookAuth.antt =====
-- Whether a request comes from the voice assistant: apps/api/app/core/security/vapi_webhook_auth.py.
-- Header names are compared by their ASCII lower case.
pub mod Presented
use Prim.Native.Char.{code}
use mathlib.Core.Option.{some-injective}
use text.Mathlib.TextLemmas.{nil-append, cons-append, head-eq_of_cons-eq}
use vapivoiceassistant.Prelude.{
  String, ◌↔◌, ◌≡◌, refl, sym, subst, ap, ◌∙◌, ◌⊎◌, Bool, true, false, ◌&&◌, Option, none, some,
  List, [], ◌∷◌, ◌==◌, ltb, join, Bool-cases, inl, inr, eq_iff, eq_refl, truthy_text, if◌then◌else◌,
}
use vapivoiceassistant.Prelude.Dict.{Dict, lookup, insert, lookup-insert}
use vapivoiceassistant.Prelude.Text.{lower_text, strip}
use vapivoiceassistant.Errors.{Result, ok, err, type_error}

pub record WebhookAuthResult : Type 0 where
  pub authenticated : Bool
  pub reason : String

-- `{k.lower(): v for k, v in headers.items()}`
unfoldable pub lowered : List (String × String) → Dict String → Dict String
unfolding lower_text
lowered [] d = d
lowered ((k, v) ∷ headers) d = lowered headers (insert (lower_text k) v d)

-- What follows the prefix, which is compared by lower case.
unfoldable pub after_prefix : String → String → Option String
unfolding lower_text
after_prefix String.[] s = some s
after_prefix (String.◌∷◌ p prefix) String.[] = none
after_prefix (String.◌∷◌ p prefix) (String.◌∷◌ c s) =
    let rest = after_prefix prefix s in
    if lower_text (String.◌∷◌ c String.[]) == String.◌∷◌ p String.[] then rest else none

abbrev pub stripped : Option String → Option String
stripped none = none
stripped (some s) = some (strip s)

abbrev pub bearer : Option String → Option String
bearer none = none
bearer (some header) = stripped (after_prefix "bearer " header)

abbrev pub secret_or : Option String → Option String → Option String
secret_or none other = other
secret_or (some secret) other = some secret

unfoldable pub extract_presented_secret : List (String × String) → Option String
unfolding lowered after_prefix
extract_presented_secret headers =
    let d = lowered headers [] in
    secret_or (truthy_text (lookup "x-vapi-secret" d))
      (bearer (truthy_text (lookup "authorization" d)))

abbrev rejected : String → WebhookAuthResult
rejected reason = record { authenticated = false; reason = reason }

abbrev pub accepted : WebhookAuthResult
accepted = record { authenticated = true; reason = "ok" }

-- `s.isascii()`
unfoldable pub is_ascii : String → Bool
is_ascii String.[] = true
is_ascii (String.◌∷◌ c s) = ltb (code c) 128 && is_ascii s

-- `hmac.compare_digest`, which raises for a text that is not ASCII.
abbrev pub compared : Option String → Option String → Result WebhookAuthResult
compared none presented = ok (rejected "webhook_secret_not_configured")
compared (some secret) none = ok (rejected "no_secret_presented")
compared (some secret) (some presented) =
    if is_ascii presented && is_ascii secret
    then ok (if presented == secret then accepted else rejected "secret_mismatch")
    else err type_error

unfoldable pub verify_webhook_request :
    List (String × String) → Option String → Result WebhookAuthResult
unfolding extract_presented_secret is_ascii
verify_webhook_request headers configured_secret =
    compared (truthy_text configured_secret) (truthy_text (extract_presented_secret headers))
