-- ===== src/Auth.antt =====
-- Accounts: passwords, sessions and requests of signed-in people. The rows are those of
-- apps/api/app/models/user.py, session.py and tokens.py with their repositories; times are numbers
-- of seconds. The hashes of passwords and tokens and what is drawn at random are arguments.
pub mod PasswordPolicy
pub mod Accounts
pub mod Sessions
pub mod Csrf
pub mod Requests
use vapivoiceassistant.Prelude.{
  ℕ, ◌≡◌, refl, ap, sym, String, Bool, true, false, ◌&&◌, ◌||◌, not, Option, none, some, List, [],
  ◌∷◌, ◌==◌, any, find, change, join, is_some, leb, if◌then◌else◌,
}
use vapivoiceassistant.Prelude.Dict.{Dict}
use vapivoiceassistant.Prelude.Text.{strip, lower_text}
use vapivoiceassistant.Errors.{Result, ok, err, Action, integrity_error, value_error}
use vapivoiceassistant.Models.{AuditLog, MetaValue}
use vapivoiceassistant.RateLimiter.{InMemoryRateLimitStore}

pub record User : Type 0 where
  pub id : String
  pub email : String
  pub password_hash : String
  pub first_name : Option String
  pub last_name : Option String
  pub phone : Option String
  pub status : String
  pub email_verified : Bool
  pub customer_id : Option String
  pub last_login_at : Option ℕ
  pub deleted_at : Option ℕ

-- The row of a signed-in browser.
pub record UserSession : Type 0 where
  pub id : String
  pub user_id : String
  pub session_token_hash : String
  pub expires_at : ℕ
  pub last_used_at : ℕ
  pub revoked_at : Option ℕ
  pub ip_hash : Option String
  pub user_agent_hash : Option String

pub record PasswordResetToken : Type 0 where
  pub id : String
  pub user_id : String
  pub token_hash : String
  pub expires_at : ℕ
  pub used_at : Option ℕ

pub record AuthDb : Type 0 where
  pub users : List User
  pub sessions : List UserSession
  pub reset_tokens : List PasswordResetToken
  -- the names of the roles table, and the pairs of a user and a role
  pub roles : List String
  pub user_roles : List (String × String)
  pub audit_logs : List AuditLog

pub record AuthWorld : Type 0 where
  pub committed : AuthDb
  pub working : AuthDb
  pub limits : InMemoryRateLimitStore

-- The clock, the id that the next row gets, and the request.
pub record AuthEnv : Type 0 where
  pub now : ℕ
  pub new_id : String
  pub request_id : Option String

abbrev pub ask : {A : Type 0} → (AuthDb → A) → Action AuthWorld A
ask f w = (ok (f w.working), w)

abbrev pub change_db : (AuthDb → AuthDb) → Action AuthWorld (Unit {0})
change_db f w = (ok tt, record w { working = f w.working })

abbrev pub try_change : (AuthDb → Result AuthDb) → Action AuthWorld (Unit {0})
try_change f w = elim (f w.working) [
  | ok d ↦ (ok tt, record w { working = d })
  | err e ↦ (err e, w)
]

abbrev pub commit_db : Action AuthWorld (Unit {0})
commit_db w = (ok tt, record w { committed = w.working })

abbrev pub on_limits : {A : Type 0} → Action InMemoryRateLimitStore A → Action AuthWorld A
on_limits m w = let (r, s) = m w.limits in (r, record w { limits = s })

abbrev pub log : AuditLog → AuthDb → AuthDb
log entry d = record d { audit_logs = entry ∷ d.audit_logs }

-- An audit row about a user, in the name of the actor.
abbrev pub user_event : AuthEnv → String → String → Option String → Dict MetaValue → AuditLog
user_event env actor action user_id metadata = record {
  actor = actor;
  actor_type = "user";
  action = action;
  resource = "user";
  resource_id = user_id;
  request_id = env.request_id;
  call_id = none;
  event_metadata = metadata;
}

-- What a user does to its own account.
abbrev pub own_event : AuthEnv → String → User → AuditLog
own_event env action user = user_event env (join "user:" user.id) action (some user.id) []

-- `email.strip().lower()`
unfoldable pub normal_email : String → String
unfolding strip lower_text
normal_email email = lower_text (strip email)

-- UserRepository
unfoldable pub get_user_by_id : String → AuthDb → Option User
get_user_by_id id d = find (λ u. u.id == id) d.users

unfoldable pub get_by_email : String → AuthDb → Option User
get_by_email email d = find (λ u. u.email == strip (lower_text email)) d.users

unfoldable pub add_user : User → AuthDb → Result AuthDb
add_user user d =
    if any (λ u. u.email == user.email || u.id == user.id) d.users
    then err integrity_error
    else ok (record d { users = user ∷ d.users })

unfoldable pub update_user : String → (User → User) → AuthDb → AuthDb
update_user id f d = record d { users = change (λ u. u.id == id) f d.users }

-- SessionRepository
unfoldable pub get_session_by_token_hash : String → AuthDb → Option UserSession
get_session_by_token_hash token_hash d = find (λ s. s.session_token_hash == token_hash) d.sessions

unfoldable pub add_session : UserSession → AuthDb → Result AuthDb
add_session session d =
    if any (λ s. s.session_token_hash == session.session_token_hash || s.id == session.id)
      d.sessions
    then err integrity_error
    else ok (record d { sessions = session ∷ d.sessions })

unfoldable pub update_session : String → (UserSession → UserSession) → AuthDb → AuthDb
update_session id f d = record d { sessions = change (λ s. s.id == id) f d.sessions }

-- The rows that `list_active_for_user` selects.
unfoldable pub is_active_for : String → ℕ → UserSession → Bool
is_active_for user_id now s =
    s.user_id == user_id && not (is_some s.revoked_at) && not (leb s.expires_at now)

abbrev pub revoked : ℕ → UserSession → UserSession
revoked now s = record s { revoked_at = some now }

-- `SessionRepository.revoke_all_for_user`, but for the count that it returns.
unfoldable pub revoke_active : String → ℕ → AuthDb → AuthDb
revoke_active user_id now d = record d {
  sessions = change (is_active_for user_id now) (revoked now) d.sessions;
}

-- PasswordResetTokenRepository
unfoldable pub get_reset_by_token_hash : String → AuthDb → Option PasswordResetToken
get_reset_by_token_hash token_hash d = find (λ t. t.token_hash == token_hash) d.reset_tokens

abbrev pub used : ℕ → PasswordResetToken → PasswordResetToken
used now t = record t { used_at = some now }

unfoldable pub invalidate_all_unused_for_user : String → ℕ → AuthDb → AuthDb
invalidate_all_unused_for_user user_id now d = record d {
  reset_tokens =
      change (λ t. t.user_id == user_id && not (is_some t.used_at)) (used now) d.reset_tokens;
}

unfoldable pub add_reset_token : PasswordResetToken → AuthDb → Result AuthDb
add_reset_token token d =
    if any (λ t. t.token_hash == token.token_hash || t.id == token.id) d.reset_tokens
    then err integrity_error
    else ok (record d { reset_tokens = token ∷ d.reset_tokens })

unfoldable pub use_reset_token : String → ℕ → AuthDb → AuthDb
use_reset_token id now d = record d {
  reset_tokens = change (λ t. t.id == id) (used now) d.reset_tokens;
}

-- `RbacRepository.assign_role`: an unknown role raises, and a role is given once.
unfoldable pub assign_role : String → String → AuthDb → Result AuthDb
assign_role user_id role d =
    if not (any (λ r. r == role) d.roles)
    then err value_error
    else if any (λ p. p.0 == user_id && p.1 == role) d.user_roles
    then ok d
    else ok (record d { user_roles = (user_id, role) ∷ d.user_roles })

try_of :
    (r : Result AuthDb) (f : AuthDb → Result AuthDb) (w : AuthWorld) {a : Unit {0}} {u : AuthWorld}
    → f w.working ≡ r
    → try_change f w ≡ (ok a, u)
    → (d : AuthDb) × (f w.working ≡ ok d) × (u ≡ record w { working = d })
try_of (ok d) f w e h = (d, e, ap (λ y. y.1) (sym (rw (e, try_change) at h)))
try_of (err x) f w e h = absurd (cc (ap (λ y. y.0) (rw (e, try_change) at h)))

-- A change that a constraint may refuse has been made, if the call returned.
pub try_change-returned :
    (f : AuthDb → Result AuthDb) (w : AuthWorld) {a : Unit {0}} {u : AuthWorld}
    → try_change f w ≡ (ok a, u)
    → (d : AuthDb) × (f w.working ≡ ok d) × (u ≡ record w { working = d })
try_change-returned f w h = try_of (f w.working) f w refl h
