-- ===== src/Vapi/WebhookAuth/Presented.antt =====
-- Where a request presents the secret, and what it takes to be let in.
use mathlib.Core.Option.{some-injective}
use text.Mathlib.TextLemmas.{nil-append, cons-append, head-eq_of_cons-eq}
use vapivoiceassistant.Prelude.{
  String, ◌↔◌, ◌≡◌, refl, sym, subst, ap, ◌∙◌, ◌⊎◌, Bool, true, false, ◌&&◌, Option, none, some,
  List, [], ◌∷◌, ◌==◌, join, Bool-cases, inl, inr, eq_iff, eq_refl, truthy_text, if◌then◌else◌,
  arith,
}
use vapivoiceassistant.Prelude.Dict.{Dict, lookup, insert, lookup-insert}
use vapivoiceassistant.Prelude.Text.{lower_text, strip}
use vapivoiceassistant.Errors.{Result, ok, err}
use vapivoiceassistant.Vapi.WebhookAuth.{
  WebhookAuthResult, lowered, after_prefix, stripped, bearer, secret_or, extract_presented_secret,
  accepted, is_ascii, compared, verify_webhook_request,
}

abbrev later_or : Option String → Option String → Option String
later_or none earlier = earlier
later_or (some v) earlier = some v

-- The value of the last header with the name, in whatever case it is written.
abbrev pub last_named : String → List (String × String) → Option String
last_named name [] = none
last_named name ((k, v) ∷ headers) =
    later_or (last_named name headers) (if lower_text k == name then some v else none)

-- "Bearer ", in whatever case it is written, and the secret, with white space around it.
abbrev pub IsBearer : String → String → Type 0
IsBearer header s =
    (scheme : String) × ((t : String) × ((header ≡ join scheme t)
        × ((lower_text scheme ≡ "bearer ") × (strip t ≡ s))))

-- The secret stands in the header of its own, or that one is missing or empty and the secret is the
-- bearer's.
abbrev pub Presents : List (String × String) → String → Type 0
Presents headers s =
    (last_named "x-vapi-secret" headers ≡ some s)
    ⊎ ((truthy_text (last_named "x-vapi-secret" headers) ≡ none)
        × ((header : String) × ((last_named "authorization" headers ≡ some header)
              × IsBearer header s)))

later_insert :
    (later o : Option String) (c : Bool) (v : String)
    → later_or later (if c then some v else o)
      ≡ later_or (later_or later (if c then some v else none)) o
later_insert (some w) o c v = refl
later_insert none o true v = refl
later_insert none o false v = refl

lookup-lowered :
    (name : String) (headers : List (String × String)) (d : Dict String)
    → lookup name (lowered headers d) ≡ later_or (last_named name headers) (lookup name d)
unfolding lowered
lookup-lowered name [] d = refl
lookup-lowered name ((k, v) ∷ headers) d =
    lookup-lowered name headers (insert (lower_text k) v d)
    ∙ ap (later_or (last_named name headers)) (lookup-insert (lower_text k) name v d)
    ∙ later_insert (last_named name headers) (lookup name d) (lower_text k == name) v

later_or-none : (o : Option String) → later_or o none ≡ o
later_or-none none = refl
later_or-none (some v) = refl

found_last :
    (name : String) (headers : List (String × String))
    → lookup name (lowered headers []) ≡ last_named name headers
unfolding lookup
found_last name headers = lookup-lowered name headers [] ∙ later_or-none (last_named name headers)

after_prefix_split :
    (prefix header : String) {t : String}
    → after_prefix prefix header ≡ some t
    → (scheme : String) × ((header ≡ join scheme t) × (lower_text scheme ≡ prefix))
unfolding after_prefix lower_text
after_prefix_split String.[] header {t} e =
    ("", (some-injective header t e ∙ sym (nil-append t), refl))
after_prefix_split (String.◌∷◌ p prefix) String.[] e = absurd (cc e)
after_prefix_split (String.◌∷◌ p prefix) (String.◌∷◌ c s) {t} e =
    elim (Bool-cases (lower_text (String.◌∷◌ c String.[]) == String.◌∷◌ p String.[])) [
      | inl same ↦
          let (scheme, (split, low)) = after_prefix_split prefix s (rw same at e) in
          let first =
            head-eq_of_cons-eq
              ((eq_iff (lower_text (String.◌∷◌ c String.[])) (String.◌∷◌ p String.[])).0 same) in
          (
            String.◌∷◌ c scheme,
            (ap (λ u. String.◌∷◌ c u) split ∙ sym (cons-append c scheme t), rw (first, low) refl),
          )
      | inr other ↦ absurd (cc (rw other at e))
    ]

after_prefix-join : (scheme t : String) → after_prefix (lower_text scheme) (join scheme t) ≡ some t
unfolding after_prefix lower_text
after_prefix-join String.[] t = rw (nil-append t) refl
after_prefix-join (String.◌∷◌ c scheme) t =
    rw (cons-append c scheme t, eq_refl (lower_text (String.◌∷◌ c String.[])))
      (after_prefix-join scheme t)

stripped_is :
    (header s : String) (o : Option String)
    → after_prefix "bearer " header ≡ o
    → stripped o ≡ some s
    → IsBearer header s
stripped_is header s none e h = absurd (cc h)
stripped_is header s (some t) e h =
    let (scheme, (split, low)) = after_prefix_split "bearer " header e in
    (scheme, (t, (split, (low, some-injective (strip t) s h))))

bearer_is :
    (a : Option String) (s : String)
    → bearer (truthy_text a) ≡ some s
    → (header : String) × ((a ≡ some header) × IsBearer header s)
bearer_is none s h = absurd (cc h)
bearer_is (some header) s h = elim (Bool-cases (header == "")) [
  | inl empty ↦ absurd (cc (rw empty at h))
  | inr there ↦
      (header, (refl, stripped_is header s (after_prefix "bearer " header) refl (rw there at h)))
]

is_bearer : (header s : String) → IsBearer header s → bearer (truthy_text (some header)) ≡ some s
unfolding after_prefix
is_bearer header s (scheme, (t, (split, (low, own)))) =
    let after : after_prefix "bearer " header ≡ some t =
      subst (λ p. after_prefix p header ≡ some t) low
        (ap (after_prefix (lower_text scheme)) split ∙ after_prefix-join scheme t) in
    elim (Bool-cases (header == "")) [
      | inl empty ↦
          let gone : after_prefix "bearer " "" ≡ some t =
            subst (λ u. after_prefix "bearer " u ≡ some t) ((eq_iff header "").0 empty) after in
          absurd (cc gone)
      | inr there ↦ rw (there, after) (ap some own)
    ]

-- The secret that the code finds, by the values of the two headers.
abbrev Found : Option String → Option String → String → Type 0
Found x a s =
    (x ≡ some s)
    ⊎ ((truthy_text x ≡ none) × ((header : String) × ((a ≡ some header) × IsBearer header s)))

found :
    (x a : Option String) (s : String)
    → secret_or (truthy_text x) (bearer (truthy_text a)) ≡ some s
    → Found x a s
found none a s h = inr (refl, bearer_is a s h)
found (some v) a s h = elim (Bool-cases (v == "")) [
  | inl empty ↦ inr (rw empty refl, bearer_is a s (rw empty at h))
  | inr there ↦ inl (rw there at h)
]

finds :
    (x a : Option String) (s : String)
    → (s == "") ≡ false
    → Found x a s
    → secret_or (truthy_text x) (bearer (truthy_text a)) ≡ some s
finds x a s there (inl own) = rw (own, there) refl
finds x a s there (inr (gone, (header, (given, b)))) = rw (gone, given) (is_bearer header s b)

-- Both are there, not empty, ASCII, and the same.
abbrev Match : Option String → Option String → Type 0
Match configured presented =
    (s : String) × ((configured ≡ some s)
      × (((s == "") ≡ false) × ((is_ascii s ≡ true) × (presented ≡ some s))))

is_accepted : Result WebhookAuthResult → Bool
is_accepted (ok r) = r.authenticated
is_accepted (err e) = false

matched :
    (configured presented : Option String)
    → compared (truthy_text configured) (truthy_text presented) ≡ ok accepted
    → Match configured presented
unfolding is_accepted
matched none presented h = absurd (cc (ap is_accepted h))
matched (some c) none h = elim (Bool-cases (c == "")) [
  | inl e ↦ absurd (cc (ap is_accepted (rw e at h)))
  | inr e ↦ absurd (cc (ap is_accepted (rw e at h)))
]
matched (some c) (some p) h = elim (Bool-cases (c == "")) [
  | inl e ↦ absurd (cc (ap is_accepted (rw e at h)))
  | inr e ↦ elim (Bool-cases (p == "")) [
    | inl f ↦ absurd (cc (ap is_accepted (rw (e, f) at h)))
    | inr f ↦ elim (Bool-cases (is_ascii p && is_ascii c)) [
      | inr a ↦ absurd (cc (ap is_accepted (rw (e, f, a) at h)))
      | inl a ↦ elim (Bool-cases (p == c)) [
        | inl same ↦ (c, (refl, (e, (ground arith, ap some ((eq_iff p c).0 same)))))
        | inr other ↦ absurd (cc (ap is_accepted (rw (e, f, a, other) at h)))
      ]
    ]
  ]
]

matches :
    (configured presented : Option String)
    → Match configured presented
    → compared (truthy_text configured) (truthy_text presented) ≡ ok accepted
matches configured presented (s, (c, (given, (ascii, p)))) = rw (c, p, given, ascii, eq_refl s) refl

-- A request is taken to come from the voice assistant exactly if a secret is configured, neither
-- empty nor with a letter that is not ASCII, and the request presents it: as the last header that
-- is called "x-vapi-secret" in any case, or, where that is missing or empty, as what follows
-- "Bearer " in the last header that is called "authorization", white space around it stripped.
pub verify_webhook_request-Presents :
    (headers : List (String × String)) (configured_secret : Option String)
    → (verify_webhook_request headers configured_secret
        ≡ ok (record { authenticated = true; reason = "ok" }))
      ↔ ((s : String) × ((configured_secret ≡ some s)
            × (((s == "") ≡ false) × ((is_ascii s ≡ true) × Presents headers s))))
unfolding verify_webhook_request extract_presented_secret
verify_webhook_request-Presents headers configured_secret =
    let x = last_named "x-vapi-secret" headers in
    let a = last_named "authorization" headers in
    let own = found_last "x-vapi-secret" headers in
    let bearers = found_last "authorization" headers in
    let extracted = secret_or (truthy_text x) (bearer (truthy_text a)) in
    rw (own, bearers)
      (
        λ h.
            let (s, (given, (there, (ascii, p)))) = matched configured_secret extracted h in
            (s, (given, (there, (ascii, found x a s p)))),
        λ (s, (given, (there, (ascii, p)))).
            matches configured_secret extracted (s, (given, (there, (ascii, finds x a s there p)))),
      )
