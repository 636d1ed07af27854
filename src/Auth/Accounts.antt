-- ===== src/Auth/Accounts.antt =====
-- `AuthService` of apps/api/app/services/auth_service.py.
pub mod Login
pub mod Reset
pub mod Renewed
use vapivoiceassistant.Prelude.{
  ℕ, ◌+◌, String, Bool, true, false, ◌&&◌, ◌||◌, not, Option, none, some, List, [], ◌∷◌, ◌==◌, join,
  is_some, leb, if◌then◌else◌,
}
use vapivoiceassistant.Errors.{Result, ok, err, Action, pure, raise, gets, or_raise, auth_error}
use vapivoiceassistant.Actions.{◌>>=◌, ◌>>◌, raise_when}
use vapivoiceassistant.RateLimiter.{BackoffLockout}
use vapivoiceassistant.RateLimiter.Attempts.{note_attempt, is_open}
use vapivoiceassistant.Auth.{
  User, PasswordResetToken, AuthDb, AuthWorld, AuthEnv, ask, change_db, try_change, commit_db,
  on_limits, log, user_event, own_event, normal_email, get_user_by_id, get_by_email, add_user,
  update_user, get_reset_by_token_hash, invalidate_all_unused_for_user, add_reset_token,
  use_reset_token, assign_role,
}
use vapivoiceassistant.Auth.PasswordPolicy.{Problem, validate_password_strength}

-- `PasswordHasher` of core/security/passwords.py. `hash` is what the call at hand gives.
pub record PasswordHasher : Type 0 where
  pub hash : String → String
  pub verify : String → String → Bool
  pub needs_rehash : String → Bool

abbrev pub password_reset_ttl : ℕ
password_reset_ttl = 3600

abbrev pub has_problems : List Problem → Bool
has_problems [] = false
has_problems (_ ∷ _) = true

-- `not validate_password_strength(...).valid`, for a user
abbrev pub is_weak : String → User → Bool
is_weak password user =
    has_problems
      (validate_password_strength password (some user.email) user.first_name user.last_name)

abbrev pub set_password : String → User → User
set_password password_hash u = record u { password_hash = password_hash }

abbrev pub login_key : String → String
login_key email = join "login:" email

-- `_DUMMY_HASH_FOR_TIMING_SAFETY` for a user that is not there.
abbrev dummy_text : String
dummy_text = "no-such-user-timing-safety-constant-do-not-reuse"

-- Is the record there, not used, and not expired?
abbrev pub live_reset : ℕ → Option PasswordResetToken → Option PasswordResetToken
live_reset now none = none
live_reset now (some t) = if is_some t.used_at || leb t.expires_at now then none else some t

abbrev pub id_of : Option User → Option String
id_of none = none
id_of (some u) = some u.id

module _ (hasher : PasswordHasher) (hash_token : String → String) (env : AuthEnv) where
  abbrev new_user : String → String → Option String → Option String → Option String → User
  new_user email password first_name last_name phone = record {
    id = env.new_id;
    email = email;
    password_hash = hasher.hash password;
    first_name = first_name;
    last_name = last_name;
    phone = phone;
    status = "PENDING_VERIFICATION";
    email_verified = false;
    customer_id = none;
    last_login_at = none;
    deleted_at = none;
  }

  abbrev store_user : User → Action AuthWorld User
  store_user user = do
    try_change (add_user user)
    try_change (assign_role user.id "CUSTOMER")
    change_db (log (own_event env "auth.registered" user))
    commit_db
    pure user

  -- The arguments are the email, the password, the two names and the phone.
  unfoldable pub register :
      String → String → Option String → Option String → Option String → Action AuthWorld User
  register email_given password first_name last_name phone = do
    let email = normal_email email_given
    raise_when
        (has_problems (validate_password_strength password (some email) first_name last_name))
        (auth_error "WEAK_PASSWORD")
    existing ← ask (get_by_email email)
    raise_when (is_some existing) (auth_error "EMAIL_ALREADY_REGISTERED")
    store_user (new_user email password first_name last_name phone)

  -- The password is verified against some hash, whether or not the user is there.
  abbrev pub password_ok : String → Option User → Bool
  password_ok password none = hasher.verify password (hasher.hash dummy_text) && false
  password_ok password (some user) = hasher.verify password user.password_hash && true

  abbrev pub fail_login : Option BackoffLockout → String → Option User → Action AuthWorld User
  fail_login lockout email user = do
    on_limits (note_attempt lockout (login_key email) false env.now)
    change_db (log (user_event env (join "email:" email) "auth.login_failed" (id_of user) []))
    commit_db
    raise (auth_error "INVALID_CREDENTIALS")

  abbrev pub block_login : String → String → User → Action AuthWorld User
  block_login action code user = do
    change_db (log (own_event env action user))
    commit_db
    raise (auth_error code)

  abbrev pub logged_in : String → User → User
  logged_in password u = record u {
    password_hash =
        if hasher.needs_rehash u.password_hash then hasher.hash password else u.password_hash;
    last_login_at = some env.now;
  }

  abbrev pub complete_login : String → User → Action AuthWorld User
  complete_login password user = do
    change_db (update_user user.id (logged_in password))
    change_db (log (own_event env "auth.login_succeeded" user))
    commit_db
    pure (logged_in password user)

  abbrev pub admit : String → User → Action AuthWorld User
  admit password user =
      if user.status == "SUSPENDED"
      then block_login "auth.login_blocked_suspended" "ACCOUNT_SUSPENDED" user
      else if user.status == "DISABLED"
      then block_login "auth.login_blocked_disabled" "ACCOUNT_DISABLED" user
      else complete_login password user

  -- The part of the method after the password has been compared.
  abbrev pub after_check :
      Option BackoffLockout → String → String → Bool → Option User → Action AuthWorld User
  after_check lockout email password false user = fail_login lockout email user
  after_check lockout email password true none = fail_login lockout email none
  after_check lockout email password true (some user) = do
    on_limits (note_attempt lockout (login_key email) true env.now)
    admit password user

  abbrev pub check_password :
      Option BackoffLockout → String → String → Option User → Action AuthWorld User
  check_password lockout email password user =
      after_check lockout email password (password_ok password user) user

  unfoldable pub authenticate : Option BackoffLockout → String → String → Action AuthWorld User
  authenticate lockout email_given password = do
    let email = normal_email email_given
    free ← gets (λ w. is_open lockout (login_key email) env.now w.limits)
    raise_when (not free) (auth_error "RATE_LIMITED")
    user ← ask (get_by_email email)
    check_password lockout email password user

  unfoldable pub change_password : User → String → String → Action AuthWorld (Unit {0})
  change_password user current_password new_password = do
    raise_when (not (hasher.verify current_password user.password_hash))
        (auth_error "INVALID_CREDENTIALS")
    raise_when (is_weak new_password user) (auth_error "WEAK_PASSWORD")
    change_db (update_user user.id (set_password (hasher.hash new_password)))
    change_db (log (own_event env "auth.password_changed" user))
    commit_db

  abbrev pub new_token : String → User → PasswordResetToken
  new_token raw user = record {
    id = env.new_id;
    user_id = user.id;
    token_hash = hash_token raw;
    expires_at = env.now + password_reset_ttl;
    used_at = none;
  }

  abbrev pub issue_reset : String → User → Action AuthWorld (Option String)
  issue_reset raw user = do
    change_db (invalidate_all_unused_for_user user.id env.now)
    try_change (add_reset_token (new_token raw user))
    change_db (log (own_event env "auth.password_reset_requested" user))
    commit_db
    pure (some raw)

  abbrev pub reset_for : String → Option User → Action AuthWorld (Option String)
  reset_for raw none = pure none
  reset_for raw (some user) = issue_reset raw user

  -- `raw` is the token that is drawn.
  unfoldable pub request_password_reset : String → String → Action AuthWorld (Option String)
  request_password_reset raw email = do
    user ← ask (get_by_email (normal_email email))
    reset_for raw user

  abbrev pub reset_with : PasswordResetToken → String → User → Action AuthWorld User
  reset_with t new_password user = do
    raise_when (is_weak new_password user) (auth_error "WEAK_PASSWORD")
    change_db (update_user user.id (set_password (hasher.hash new_password)))
    change_db (use_reset_token t.id env.now)
    change_db (log (own_event env "auth.password_reset_completed" user))
    commit_db
    pure (set_password (hasher.hash new_password) user)

  abbrev pub reset_found : String → PasswordResetToken → Action AuthWorld User
  reset_found new_password t = do
    found ← ask (get_user_by_id t.user_id)
    user ← or_raise found (auth_error "INVALID_TOKEN")
    reset_with t new_password user

  unfoldable pub reset_password : String → String → Action AuthWorld User
  reset_password raw_token new_password = do
    found ← ask (get_reset_by_token_hash (hash_token raw_token))
    t ← or_raise (live_reset env.now found) (auth_error "INVALID_TOKEN")
    reset_found new_password t
