-- ===== src/Tests/Visitors.antt =====
-- Witnesses for browser sessions, verification tokens and who makes a request.
use vapivoiceassistant.Prelude.{
  ◌+◌, ◌≡◌, refl, String, true, false, ◌==◌, Option, none, some, List, [], ◌∷◌, arith, join, leb,
  change, truthy_text, if◌then◌else◌,
}
use vapivoiceassistant.Prelude.Dict.{lookup}
use vapivoiceassistant.Prelude.Text.{codes, lower_text, strip, lstrip, rstrip}
use vapivoiceassistant.Errors.{Result, ok, is_ok}
use vapivoiceassistant.Models.{Booking}
use vapivoiceassistant.RateLimiter.{is_locked, lock_verdict, record_failure, count_failure}
use vapivoiceassistant.RateLimiter.Attempts.{is_open}
use vapivoiceassistant.Access.Actor.{CurrentActor, human_user, is_authenticated_human}
use vapivoiceassistant.Access.Rbac.{permissions_for_roles}
use vapivoiceassistant.Verification.{
  verification_pending, verified, is_usable, scoped_to, submit_factor_result,
}
use vapivoiceassistant.VerificationService.{
  VerificationSession, VerificationWorld, get_by_token_hash, verify, submit, check, lock_key,
  normal, to_state, scored,
}
use vapivoiceassistant.VerificationService.Opens.{submit-check, check-submit_missed}
use vapivoiceassistant.Auth.{
  UserSession, AuthWorld, get_user_by_id, get_session_by_token_hash, add_session, update_session,
}
use vapivoiceassistant.Auth.PasswordPolicy.{is_sequential_run}
use vapivoiceassistant.Auth.PasswordPolicy.Runs.{has_run, is_sequential_run-eq-has_run}
use vapivoiceassistant.Auth.Sessions.{
  new_session, touched, create_session, revoke_all_for_user, validate_session,
}
use vapivoiceassistant.Auth.Sessions.Lifecycle.{
  opened_by, create_session-validate, revoke_all_for_user-validate,
}
use vapivoiceassistant.Auth.Csrf.{
  issue_csrf_token, verify_csrf, has_dot, verify_csrf-issue_csrf_token,
}
use vapivoiceassistant.Auth.Requests.{
  anonymous, get_current_actor, roles_for_user, permissions_for_user, require_booking_access,
  token_opens,
}
use vapivoiceassistant.Auth.Requests.Identity.{IsFrom, get_current_actor-IsFrom}
use vapivoiceassistant.Auth.Requests.Redeemed.{require_booking_access-anonymous}
use vapivoiceassistant.Tests.Data.{booking_with}
use vapivoiceassistant.Tests.People.{
  hashed, ada, browser, no_failures, with_ada, request_at, lockout,
}

abbrev signed_in : Result (String × UserSession) × AuthWorld
signed_in = create_session hashed (request_at 1000) "fresh" 600 none none ada with_ada

signed_in_returns :
    signed_in
    ≡ (ok ("fresh", new_session hashed (request_at 1000) "fresh" 600 none none ada), signed_in.1)
unfolding create_session add_session
signed_in_returns = refl

create_session-validate_example :
    opened_by hashed (request_at 1500) "fresh" signed_in.1
    ≡ ok (
        if leb (1000 + 600) 1500
        then none
        else some (touched 1500 (new_session hashed (request_at 1000) "fresh" 600 none none ada)))
create_session-validate_example =
    create_session-validate hashed (request_at 1000) (request_at 1500) "fresh" 600 none none ada
      with_ada signed_in_returns

cookie_found : get_session_by_token_hash (hashed "cookie") with_ada.working ≡ some browser
unfolding get_session_by_token_hash
cookie_found = refl

revoke_all_for_user-validate_example :
    opened_by hashed
      (request_at 1500)
      "cookie"
      (revoke_all_for_user hashed (request_at 1000) "u1" "logout_all" with_ada).1
    ≡ ok none
revoke_all_for_user-validate_example =
    revoke_all_for_user-validate hashed (request_at 1000) (request_at 1500) "u1" "logout_all"
      "cookie" browser with_ada (omega arith) cookie_found refl

abbrev mac : String → String → String
mac key message = join key message

plain_nonce : has_dot "nonce" ≡ false
unfolding has_dot
plain_nonce = refl

verify_csrf-issue_csrf_token_example :
    let token = issue_csrf_token mac "nonce" "s1" "key" in
    verify_csrf mac "s2" "key" (some token) (some token)
    ≡ (mac "key" (join "s2" (join ":" "nonce")) == mac "key" (join "s1" (join ":" "nonce")))
verify_csrf-issue_csrf_token_example =
    verify_csrf-issue_csrf_token mac "nonce" "s1" "s2" "key" plain_nonce

abbrev visit : Result CurrentActor × AuthWorld
visit = get_current_actor hashed (request_at 1000) (some "cookie") with_ada

abbrev granted : Option (List String) → List String
granted none = []
granted (some permissions) = permissions

abbrev visitor : CurrentActor
visitor = record (anonymous (some "r1")) {
  actor_type = human_user;
  user_id = some "u1";
  customer_id = some "c1";
  roles = "CUSTOMER" ∷ [];
  permissions = granted (permissions_for_roles ("CUSTOMER" ∷ []));
  account_status = some "ACTIVE";
}

visit_returns : visit ≡ (ok visitor, visit.1)
unfolding get_current_actor validate_session get_session_by_token_hash update_session get_user_by_id
    change roles_for_user permissions_for_user permissions_for_roles lookup
visit_returns = refl

visitor_is_human : is_authenticated_human visitor ≡ true
unfolding is_authenticated_human
visitor_is_human = refl

get_current_actor-IsFrom_example : IsFrom hashed (request_at 1000) "cookie" with_ada visitor
get_current_actor-IsFrom_example =
    get_current_actor-IsFrom hashed (request_at 1000) "cookie" with_ada refl visit_returns
      visitor_is_human

abbrev pending : VerificationSession
pending = record {
  id = "v1";
  call_id = none;
  booking_id = "b9";
  purpose = "cancel_booking";
  token_hash = "h:token";
  status = verification_pending;
  attempts = 0;
  expires_at = 2000;
  verified_at = none;
  created_at = 1000;
}

abbrev one_pending : VerificationWorld
one_pending = record { sessions = pending ∷ []; limits = no_failures }

abbrev own_booking : Booking
own_booking = booking_with "PENDING"

pending_found : get_by_token_hash (hashed "token") one_pending.sessions ≡ some pending
unfolding get_by_token_hash
pending_found = refl

pending_open : is_open lockout (lock_key pending) 1100 no_failures ≡ true
unfolding is_locked lookup lock_verdict
pending_open = refl

byron_matches : verify own_booking none (some "Byron") ≡ true
unfolding verify normal strip lstrip rstrip lower_text
byron_matches = refl

-- The token is that of the booking "b9", the name that of a passenger of "b1".
submit-check_example :
    check hashed 1100 "token" "b9" "cancel_booking"
      (submit hashed lockout 1100 "token" own_booking none (some "Byron") one_pending).1
    ≡ true
submit-check_example =
    submit-check hashed lockout 1100 "token" own_booking none (some "Byron") one_pending pending
      pending_found refl (omega arith) pending_open byron_matches

abbrev proven : VerificationSession
proven = record pending {
  id = "v2";
  token_hash = "h:other";
  status = verified;
  attempts = 1;
  verified_at = some 1050;
}

abbrev two_sessions : VerificationWorld
two_sessions = record { sessions = pending ∷ proven ∷ []; limits = no_failures }

lovelace_misses : verify own_booking none (some "Lovelace") ≡ false
unfolding verify normal strip lstrip rstrip lower_text
lovelace_misses = refl

still_open :
    check hashed 1200 "other" "b9" "cancel_booking"
      (submit hashed lockout 1100 "token" own_booking none (some "Lovelace") two_sessions).1
    ≡ true
unfolding check submit get_by_token_hash to_state scored is_usable scoped_to submit_factor_result
    verify normal strip lstrip rstrip lower_text is_locked lookup lock_verdict record_failure change
    count_failure
still_open = refl

check-submit_missed_example : check hashed 1200 "other" "b9" "cancel_booking" two_sessions ≡ true
check-submit_missed_example =
    check-submit_missed hashed lockout 1100 "token" own_booking none (some "Lovelace") two_sessions
      "other" 1200 "b9" "cancel_booking" lovelace_misses still_open

require_booking_access-anonymous_example :
    is_ok
      (require_booking_access hashed 1200
        (anonymous none)
        own_booking
        "bookings.cancel"
        "cancel_booking"
        (some "other")
        two_sessions).0
    ≡ token_opens hashed 1200 own_booking "cancel_booking" (truthy_text (some "other")) two_sessions
require_booking_access-anonymous_example =
    require_booking_access-anonymous hashed 1200 none own_booking "bookings.cancel" "cancel_booking"
      (some "other") two_sessions

is_sequential_run-eq-has_run_example :
    is_sequential_run (codes "xabcdef") ≡ has_run (codes "xabcdef")
is_sequential_run-eq-has_run_example = is_sequential_run-eq-has_run (codes "xabcdef")
