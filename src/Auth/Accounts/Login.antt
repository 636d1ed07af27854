-- ===== src/Auth/Accounts/Login.antt =====
-- What `authenticate` lets in, and what it tells those whom it does not.
use vapivoiceassistant.Prelude.{
  String, ◌≡◌, refl, ◌∙◌, ap, sym, Bool, true, false, Option, none, some, ◌==◌, arith, Bool-cases,
  inl, inr, [], join, if◌then◌else◌,
}
use vapivoiceassistant.Errors.{Result, ok, ok-injective, err, raise, auth_error}
use vapivoiceassistant.Actions.{◌>>◌, >>=-returned}
use vapivoiceassistant.RateLimiter.{BackoffLockout, InMemoryRateLimitStore}
use vapivoiceassistant.RateLimiter.Attempts.{note_attempt, is_open}
use vapivoiceassistant.Auth.{
  User, AuthDb, AuthWorld, AuthEnv, normal_email, get_by_email, on_limits, change_db, commit_db,
  log, user_event,
}
use vapivoiceassistant.Auth.Accounts.{
  PasswordHasher, login_key, password_ok, fail_login, after_check, authenticate, id_of, admit,
  logged_in,
}

-- What a caller sees of a call: its answer, and what the backoff remembers.
abbrev pub seen : Result User × AuthWorld → Result User × InMemoryRateLimitStore
seen (r, w) = (r, w.limits)

-- The answer to a login that failed, by what the backoff made of the failure.
abbrev refusal : Result (Unit {0}) × InMemoryRateLimitStore → Result User × InMemoryRateLimitStore
refusal (ok _, s) = (err (auth_error "INVALID_CREDENTIALS"), s)
refusal (err e, s) = (err e, s)

refusal-seen :
    (f : AuthDb → AuthDb) (w : AuthWorld) (x : Result (Unit {0}) × InMemoryRateLimitStore)
    → seen (
        (on_limits (λ _. x)
            >> (change_db f >> (commit_db >> raise (auth_error "INVALID_CREDENTIALS"))))
          w)
      ≡ refusal x
refusal-seen f w (ok _, s) = refl
refusal-seen f w (err e, s) = refl

refusal_is_no_user :
    (x : Result (Unit {0}) × InMemoryRateLimitStore) {u : User} {s : InMemoryRateLimitStore}
    → refusal x ≡ (ok u, s)
    → ⊥
refusal_is_no_user (ok _, s) h = absurd (cc (ap (λ y. y.0) h))
refusal_is_no_user (err e, s) h = absurd (cc (ap (λ y. y.0) h))

module _ (hasher : PasswordHasher) (hash_token : String → String) (env : AuthEnv)
    (lockout : Option BackoffLockout) (email password : String) where
  fail_login-seen :
      (user : Option User) (w : AuthWorld)
      → seen (fail_login hasher hash_token env lockout (normal_email email) user w)
        ≡ refusal (note_attempt lockout (login_key (normal_email email)) false env.now w.limits)
  fail_login-seen user w =
      refusal-seen
        (log
          (user_event env (join "email:" (normal_email email)) "auth.login_failed" (id_of user) []))
        w (note_attempt lockout (login_key (normal_email email)) false env.now w.limits)

  check_failed :
      (user : Option User) (w : AuthWorld) (matched : Bool)
      → matched ≡ false
      → seen
          (after_check hasher hash_token env lockout (normal_email email) password matched user w)
        ≡ refusal (note_attempt lockout (login_key (normal_email email)) false env.now w.limits)
  check_failed user w true e = absurd (cc e)
  check_failed user w false e = fail_login-seen user w

  -- The answer to a login with a wrong password.
  wrong_password :
      (w : AuthWorld)
      → password_ok hasher hash_token env password (get_by_email (normal_email email) w.working)
        ≡ false
      → seen (authenticate hasher hash_token env lockout email password w) ≡ (
          if is_open lockout (login_key (normal_email email)) env.now w.limits
          then refusal
              (note_attempt lockout (login_key (normal_email email)) false env.now w.limits)
          else (err (auth_error "RATE_LIMITED"), w.limits))
  unfolding authenticate
  wrong_password w wrong =
      elim (Bool-cases (is_open lockout (login_key (normal_email email)) env.now w.limits)) [
        | inl free ↦ rw free (check_failed (get_by_email (normal_email email) w.working) w _ wrong)
        | inr shut ↦ rw shut refl
      ]

  -- Two states of the accounts in which the password is wrong, because there is no account with the
  -- email or because it has another password, with the same failures before. A login gives the same
  -- answer in both, and leaves the same failures.
  pub authenticate-hides_account :
      (v w : AuthWorld)
      → v.limits ≡ w.limits
      → password_ok hasher hash_token env password (get_by_email (normal_email email) v.working)
        ≡ false
      → password_ok hasher hash_token env password (get_by_email (normal_email email) w.working)
        ≡ false
      → seen (authenticate hasher hash_token env lockout email password v)
        ≡ seen (authenticate hasher hash_token env lockout email password w)
  authenticate-hides_account v w same wrong_v wrong_w =
      wrong_password v wrong_v ∙ rw same (sym (wrong_password w wrong_w))

  -- Who is let in: the account with the email, by its own password, if it is neither suspended nor
  -- disabled. It is returned with the time of the login, and hashed again if its hash is too old.
  abbrev pub IsAdmitted : User → User → Option User → Type 0
  IsAdmitted u x user =
      (user ≡ some x)
      × ((hasher.verify password x.password_hash ≡ true)
          × (((x.status == "SUSPENDED") ≡ false)
              × (((x.status == "DISABLED") ≡ false)
                  × (u ≡ record x {
                    password_hash =
                        if hasher.needs_rehash x.password_hash
                        then hasher.hash password
                        else x.password_hash;
                    last_login_at = some env.now;
                  }))))

  failed_login_returns_nothing :
      (user : Option User) (w : AuthWorld) {u : User} {w' : AuthWorld}
      → fail_login hasher hash_token env lockout (normal_email email) user w ≡ (ok u, w')
      → ⊥
  failed_login_returns_nothing user w {u} {w'} h =
      refusal_is_no_user
        (note_attempt lockout (login_key (normal_email email)) false env.now w.limits)
        (sym (fail_login-seen user w) ∙ ap seen h)

  admit_active :
      (x : User) (w : AuthWorld) {u : User} {w' : AuthWorld}
      → admit hasher hash_token env password x w ≡ (ok u, w')
      → ((x.status == "SUSPENDED") ≡ false)
        × (((x.status == "DISABLED") ≡ false) × (u ≡ logged_in hasher hash_token env password x))
  admit_active x w h = elim (Bool-cases (x.status == "SUSPENDED")) [
    | inl suspended ↦ absurd (cc (ap (λ y. y.0) (rw suspended at h)))
    | inr active ↦ elim (Bool-cases (x.status == "DISABLED")) [
      | inl disabled ↦ absurd (cc (ap (λ y. y.0) (rw (active, disabled) at h)))
      | inr enabled ↦
          (active, (enabled, sym (ok-injective (ap (λ y. y.0) (rw (active, enabled) at h)))))
    ]
  ]

  admitted :
      (user : Option User) (matched : Bool) (w : AuthWorld) {u : User} {w' : AuthWorld}
      → password_ok hasher hash_token env password user ≡ matched
      → after_check hasher hash_token env lockout (normal_email email) password matched user w
        ≡ (ok u, w')
      → (x : User) × IsAdmitted u x user
  admitted user false w e h = absurd (failed_login_returns_nothing user w h)
  admitted none true w e h = absurd (failed_login_returns_nothing none w h)
  admitted (some x) true w e h =
      let (a, v, noted, rest) =
        >>=-returned
          (on_limits (note_attempt lockout (login_key (normal_email email)) true env.now))
          (λ _. admit hasher hash_token env password x) w h in
      (x, (refl, (ground arith, admit_active x v rest)))

  -- A login that succeeds is that of an account with the email, whose password was verified, which
  -- is neither suspended nor disabled, and whose email was not locked. The user that is returned is
  -- that account, with the time of the login, and with a new hash of the password if the hasher
  -- asks for one; nothing else of it is changed.
  pub authenticate-admits :
      (w : AuthWorld) {u : User} {w' : AuthWorld}
      → authenticate hasher hash_token env lockout email password w ≡ (ok u, w')
      → (is_open lockout (login_key (normal_email email)) env.now w.limits ≡ true)
        × ((x : User) × IsAdmitted u x (get_by_email (normal_email email) w.working))
  unfolding authenticate
  authenticate-admits w h =
      elim (Bool-cases (is_open lockout (login_key (normal_email email)) env.now w.limits)) [
        | inl free ↦
            (free, admitted (get_by_email (normal_email email) w.working) _ w refl (rw free at h))
        | inr shut ↦ absurd (cc (ap (λ y. y.0) (rw shut at h)))
      ]
