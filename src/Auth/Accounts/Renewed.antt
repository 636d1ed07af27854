-- ===== src/Auth/Accounts/Renewed.antt =====
-- After a reset the new password opens the account.
use vapivoiceassistant.Prelude.{
  String, ◌≡◌, refl, ◌∙◌, true, false, ◌||◌, Option, none, some, ◌==◌, find-change, eq_refl,
  is_some, leb,
}
use vapivoiceassistant.Prelude.Text.{strip, lower_text}
use vapivoiceassistant.Errors.{ok}
use vapivoiceassistant.RateLimiter.{BackoffLockout}
use vapivoiceassistant.RateLimiter.Attempts.{is_open}
use vapivoiceassistant.Auth.{
  User, PasswordResetToken, AuthDb, AuthWorld, AuthEnv, normal_email, get_by_email, get_user_by_id,
  update_user, use_reset_token, get_reset_by_token_hash,
}
use vapivoiceassistant.Auth.Accounts.{
  PasswordHasher, login_key, is_weak, set_password, reset_password, after_check, logged_in,
  authenticate,
}
use vapivoiceassistant.Auth.Accounts.Reset.{after_reset}

module _ (hasher : PasswordHasher) (hash_token : String → String) where
  -- A call with a live token of the user.
  reset_done :
      (env : AuthEnv) (raw_token password : String) (t : PasswordResetToken) (user : User)
      (w : AuthWorld)
      → get_reset_by_token_hash (hash_token raw_token) w.working ≡ some t
      → (is_some t.used_at || leb t.expires_at env.now) ≡ false
      → get_user_by_id t.user_id w.working ≡ some user
      → is_weak password user ≡ false
      → reset_password hasher hash_token env raw_token password w ≡ (
        ok (set_password (hasher.hash password) user),
        record w {
          working = after_reset hasher hash_token env t password user w.working;
          committed = after_reset hasher hash_token env t password user w.working;
        },
      )
  unfolding reset_password
  reset_done env raw_token password t user w found live owner strong =
      rw (found, live, owner, strong) refl

  email_after :
      (env : AuthEnv) (t : PasswordResetToken) (email password : String) (user : User) (d : AuthDb)
      → get_by_email email d ≡ some user
      → get_by_email email (after_reset hasher hash_token env t password user d)
        ≡ some (set_password (hasher.hash password) user)
  unfolding get_by_email update_user use_reset_token
  email_after env t email password user d account =
      find-change (λ u. u.email == strip (lower_text email)) (λ u. u.id == user.id)
        (set_password (hasher.hash password)) d.users (λ u. refl)
      ∙ rw (account, eq_refl user.id) refl

  check_done :
      (later : AuthEnv) (lockout : Option BackoffLockout) (email password : String) (user : User)
      (w : AuthWorld)
      → (user.status == "SUSPENDED") ≡ false
      → (user.status == "DISABLED") ≡ false
      → (after_check hasher hash_token later lockout email password true (some user) w).0
        ≡ ok (logged_in hasher hash_token later password user)
  check_done later none email password user w active enabled = rw (active, enabled) refl
  check_done later (some b) email password user w active enabled = rw (active, enabled) refl

  login_done :
      (later : AuthEnv) (lockout : Option BackoffLockout) (email password : String) (user : User)
      (w : AuthWorld)
      → get_by_email (normal_email email) w.working ≡ some user
      → is_open lockout (login_key (normal_email email)) later.now w.limits ≡ true
      → hasher.verify password user.password_hash ≡ true
      → (user.status == "SUSPENDED") ≡ false
      → (user.status == "DISABLED") ≡ false
      → (authenticate hasher hash_token later lockout email password w).0
        ≡ ok (logged_in hasher hash_token later password user)
  unfolding authenticate
  login_done later lockout email password user w account free right active enabled =
      rw (free, account, right)
        (check_done later lockout (normal_email email) password user w active enabled)

  -- A live token of an active account, a new password that is strong enough and that the hasher
  -- verifies against its own hash. The reset succeeds, and at any later time, while the email is not
  -- locked, a login with the new password succeeds.
  pub reset_password-authenticate :
      (env later : AuthEnv) (lockout : Option BackoffLockout) (raw_token email password : String)
      (t : PasswordResetToken) (user : User) (w : AuthWorld)
      → hasher.verify password (hasher.hash password) ≡ true
      → get_reset_by_token_hash (hash_token raw_token) w.working ≡ some t
      → (is_some t.used_at || leb t.expires_at env.now) ≡ false
      → get_user_by_id t.user_id w.working ≡ some user
      → get_by_email (normal_email email) w.working ≡ some user
      → is_weak password user ≡ false
      → (user.status == "SUSPENDED") ≡ false
      → (user.status == "DISABLED") ≡ false
      → is_open lockout (login_key (normal_email email)) later.now w.limits ≡ true
      → let renewed = set_password (hasher.hash password) user in
        let r = reset_password hasher hash_token env raw_token password w in
        (r.0 ≡ ok renewed)
        × ((authenticate hasher hash_token later lockout email password r.1).0
            ≡ ok (logged_in hasher hash_token later password renewed))
  reset_password-authenticate env later lockout raw_token email password t user w right found live
        owner account strong active enabled free =
      let done = reset_done env raw_token password t user w found live owner strong in
      let d = after_reset hasher hash_token env t password user w.working in
      rw done (
        refl,
        login_done later lockout email password (set_password (hasher.hash password) user)
            (record w { working = d; committed = d })
            (email_after env t (normal_email email) password user w.working account) free right
            active enabled,
      )
