-- ===== src/Tests/Accounts.antt =====
-- Witnesses for logins and password resets.
use vapivoiceassistant.Prelude.{
  ◌≡◌, refl, String, true, false, Option, some, join, change, contains,
}
use vapivoiceassistant.Prelude.Dict.{lookup}
use vapivoiceassistant.Prelude.Text.{codes, lower_text, strip, lstrip, rstrip}
use vapivoiceassistant.Errors.{Result, ok, err, auth_error}
use vapivoiceassistant.RateLimiter.{is_locked, lock_verdict, record_success}
use vapivoiceassistant.RateLimiter.Attempts.{is_open}
use vapivoiceassistant.Auth.{
  User, AuthWorld, normal_email, get_by_email, get_user_by_id, get_reset_by_token_hash,
  invalidate_all_unused_for_user, add_reset_token,
}
use vapivoiceassistant.Auth.PasswordPolicy.{
  validate_password_strength, is_sequential_run, has_run_from, distinct, occurs_in, local_part,
  repeats_field,
}
use vapivoiceassistant.Auth.Accounts.{
  password_ok, login_key, authenticate, reset_password, request_password_reset, is_weak,
  set_password, logged_in,
}
use vapivoiceassistant.Auth.Accounts.Login.{
  seen, IsAdmitted, authenticate-hides_account, authenticate-admits,
}
use vapivoiceassistant.Auth.Accounts.Reset.{reset_password-once, request_password_reset-supersedes}
use vapivoiceassistant.Auth.Accounts.Renewed.{reset_password-authenticate}
use vapivoiceassistant.Tests.People.{
  hashed, hasher, ada, link, with_ada, without_ada, request_at, lockout,
}

abbrev strong : String
strong = "correct horse 42"

wrong_password :
    password_ok hasher hashed
      (request_at 1000)
      "guess"
      (get_by_email (normal_email "ada@example.org") with_ada.working)
    ≡ false
unfolding get_by_email normal_email strip lstrip rstrip lower_text
wrong_password = refl

no_account :
    password_ok hasher hashed
      (request_at 1000)
      "guess"
      (get_by_email (normal_email "ada@example.org") without_ada.working)
    ≡ false
unfolding get_by_email
no_account = refl

authenticate-hides_account_example :
    seen (authenticate hasher hashed (request_at 1000) lockout "ada@example.org" "guess" with_ada)
    ≡ seen
        (authenticate hasher hashed (request_at 1000) lockout "ada@example.org" "guess" without_ada)
authenticate-hides_account_example =
    authenticate-hides_account hasher hashed (request_at 1000) lockout "ada@example.org" "guess"
      with_ada without_ada refl wrong_password no_account

abbrev login : Result User × AuthWorld
login = authenticate hasher hashed (request_at 1000) lockout "ada@example.org" "old" with_ada

login_succeeds : login ≡ (ok (logged_in hasher hashed (request_at 1000) "old" ada), login.1)
unfolding authenticate get_by_email normal_email strip lstrip rstrip lower_text is_locked
    record_success lookup lock_verdict
login_succeeds = refl

authenticate-admits_example :
    (is_open lockout (login_key (normal_email "ada@example.org")) 1000 with_ada.limits ≡ true)
    × ((x : User) × IsAdmitted hasher hashed
          (request_at 1000)
          lockout
          "ada@example.org"
          "old"
          (logged_in hasher hashed (request_at 1000) "old" ada)
          x
          (get_by_email (normal_email "ada@example.org") with_ada.working))
authenticate-admits_example =
    authenticate-admits hasher hashed (request_at 1000) lockout "ada@example.org" "old" with_ada
      login_succeeds

abbrev reset : Result User × AuthWorld
reset = reset_password hasher hashed (request_at 1000) "link" strong with_ada

reset_succeeds : reset ≡ (ok (set_password (join "argon:" strong) ada), reset.1)
unfolding reset_password get_reset_by_token_hash get_user_by_id contains validate_password_strength
    is_sequential_run has_run_from distinct occurs_in local_part repeats_field codes lower_text
reset_succeeds = refl

reset_password-once_example :
    reset_password hasher hashed (request_at 1100) "link" "another secret" reset.1
    ≡ (err (auth_error "INVALID_TOKEN"), reset.1)
reset_password-once_example =
    reset_password-once hasher hashed (request_at 1000) (request_at 1100) "link" strong
      "another secret" with_ada reset_succeeds

abbrev second_link : Result (Option String) × AuthWorld
second_link =
    request_password_reset hasher hashed (request_at 1000) "newer" "ada@example.org" with_ada

second_link_sent : second_link ≡ (ok (some "newer"), second_link.1)
unfolding request_password_reset get_by_email normal_email strip lstrip rstrip lower_text
    invalidate_all_unused_for_user add_reset_token change
second_link_sent = refl

ada_found : get_by_email (normal_email "ada@example.org") with_ada.working ≡ some ada
unfolding get_by_email normal_email strip lstrip rstrip lower_text
ada_found = refl

link_found : get_reset_by_token_hash (hashed "link") with_ada.working ≡ some link
unfolding get_reset_by_token_hash
link_found = refl

request_password_reset-supersedes_example :
    reset_password hasher hashed (request_at 1100) "link" strong second_link.1
    ≡ (err (auth_error "INVALID_TOKEN"), second_link.1)
request_password_reset-supersedes_example =
    request_password_reset-supersedes hasher hashed (request_at 1000) (request_at 1100) "newer"
      "link" "ada@example.org" strong ada link with_ada ada_found link_found refl second_link_sent

owner_found : get_user_by_id link.user_id with_ada.working ≡ some ada
unfolding get_user_by_id
owner_found = refl

strong_enough : is_weak strong ada ≡ false
unfolding contains validate_password_strength is_sequential_run has_run_from distinct occurs_in
    local_part repeats_field codes lower_text
strong_enough = refl

not_locked :
    is_open lockout (login_key (normal_email "ada@example.org")) 1100 with_ada.limits ≡ true
unfolding is_locked lookup lock_verdict
not_locked = refl

reset_password-authenticate_example :
    let renewed = set_password (join "argon:" strong) ada in
    (reset.0 ≡ ok renewed)
    × ((authenticate hasher hashed (request_at 1100) lockout "ada@example.org" strong reset.1).0
        ≡ ok (logged_in hasher hashed (request_at 1100) strong renewed))
reset_password-authenticate_example =
    reset_password-authenticate hasher hashed (request_at 1000) (request_at 1100) lockout "link"
      "ada@example.org" strong link ada with_ada refl link_found refl owner_found ada_found
      strong_enough refl refl not_locked
