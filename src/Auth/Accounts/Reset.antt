-- ===== src/Auth/Accounts/Reset.antt =====
-- A password reset token works once, and only the newest of an account works.
use vapivoiceassistant.Prelude.{
  ℕ, String, ◌≡◌, refl, ◌∙◌, ap, sym, subst, Bool, true, false, not, ◌&&◌, ◌||◌, Option, none, some,
  ◌∷◌, ◌==◌, arith, Bool-cases, Option-cases, inl, inr, find, any, change, find-change, eq_refl,
  eq_iff, is_some, leb, if◌then◌else◌, All,
}
use vapivoiceassistant.Errors.{ok, ok-injective, err, auth_error, or_raise, pure}
use vapivoiceassistant.Actions.{◌>>=◌, ◌>>◌, >>=-returned}
use vapivoiceassistant.Database.Rows.{find_elim, find_holds, any-false}
use vapivoiceassistant.Auth.{
  User, PasswordResetToken, AuthDb, AuthWorld, AuthEnv, own_event, log, change_db, try_change,
  try_change-returned, commit_db, used, update_user, use_reset_token, get_user_by_id, get_by_email,
  normal_email, get_reset_by_token_hash, invalidate_all_unused_for_user, add_reset_token,
}
use vapivoiceassistant.Auth.Accounts.{
  PasswordHasher, is_weak, set_password, live_reset, reset_with, reset_found, reset_password,
  issue_reset, new_token, request_password_reset,
}

apart_hashes :
    (a b c : String) (other : Bool) → a ≡ c → (a == b || other) ≡ false → (b == c) ≡ false
apart_hashes a b c other same apart = ground (arith, eq_iff a b, eq_iff b c)

invalidated_is_used :
    (user_id : String) (now : ℕ) (t : PasswordResetToken)
    → t.user_id ≡ user_id
    → is_some (if t.user_id == user_id && not (is_some t.used_at) then used now t else t).used_at
      ≡ true
invalidated_is_used user_id now t owner = elim (Bool-cases (is_some t.used_at)) [
  | inl spent ↦ rw (owner, eq_refl user_id, spent) spent
  | inr fresh ↦ rw (owner, eq_refl user_id, fresh) refl
]

by_tokens :
    (token_hash : String) (d d' : AuthDb) {t : PasswordResetToken}
    → d.reset_tokens ≡ d'.reset_tokens
    → get_reset_by_token_hash token_hash d ≡ some t
    → get_reset_by_token_hash token_hash d' ≡ some t
unfolding get_reset_by_token_hash
by_tokens token_hash d d' {t} same found =
    subst (λ ts. find (λ q. q.token_hash == token_hash) ts ≡ some t) same found

module _ (hasher : PasswordHasher) (hash_token : String → String) where
  -- The database after a reset that went through.
  abbrev pub after_reset : AuthEnv → PasswordResetToken → String → User → AuthDb → AuthDb
  after_reset env t password user d =
      log (own_event env "auth.password_reset_completed" user)
        (use_reset_token t.id env.now (update_user user.id (set_password (hasher.hash password)) d))

  record ResetFrom (env : AuthEnv) (raw_token password : String) (w w' : AuthWorld) : Type 0 where
    token : PasswordResetToken
    user : User
    found : get_reset_by_token_hash (hash_token raw_token) w.working ≡ some token
    owner : get_user_by_id token.user_id w.working ≡ some user
    stored : w'.working ≡ after_reset env token password user w.working

  reset_steps :
      (env : AuthEnv) (raw_token password : String) (w : AuthWorld) (t : PasswordResetToken)
      (user : User) {u : User} {w' : AuthWorld}
      → reset_with hasher hash_token env t password user w ≡ (ok u, w')
      → w'.working ≡ after_reset env t password user w.working
  reset_steps env raw_token password w t user h = elim (Bool-cases (is_weak password user)) [
    | inl weak ↦ absurd (cc (ap (λ y. y.0) (rw weak at h)))
    | inr strong ↦ ap (λ y. y.1.working) (sym (rw strong at h))
  ]

  owner_steps :
      (env : AuthEnv) (raw_token password : String) (w : AuthWorld) (t : PasswordResetToken)
      {u : User} {w' : AuthWorld}
      → get_reset_by_token_hash (hash_token raw_token) w.working ≡ some t
      → reset_found hasher hash_token env password t w ≡ (ok u, w')
      → ResetFrom env raw_token password w w'
  owner_steps env raw_token password w t found h =
      elim (Option-cases (get_user_by_id t.user_id w.working)) [
        | inl nobody ↦ absurd (cc (ap (λ y. y.0) (rw nobody at h)))
        | inr (user, owner) ↦ record {
          token = t;
          user = user;
          found = found;
          owner = owner;
          stored = reset_steps env raw_token password w t user (rw owner at h);
        }
      ]

  token_steps :
      (env : AuthEnv) (raw_token password : String) (w : AuthWorld) (o : Option PasswordResetToken)
      {u : User} {w' : AuthWorld}
      → get_reset_by_token_hash (hash_token raw_token) w.working ≡ o
      → (or_raise (live_reset env.now o) (auth_error "INVALID_TOKEN")
            >>= reset_found hasher hash_token env password)
          w
        ≡ (ok u, w')
      → ResetFrom env raw_token password w w'
  token_steps env raw_token password w none found h = absurd (cc (ap (λ y. y.0) h))
  token_steps env raw_token password w (some t) found h =
      elim (Bool-cases (is_some t.used_at || leb t.expires_at env.now)) [
        | inl dead ↦ absurd (cc (ap (λ y. y.0) (rw dead at h)))
        | inr live ↦ owner_steps env raw_token password w t found (rw live at h)
      ]

  reset_password-from :
      (env : AuthEnv) (raw_token password : String) (w : AuthWorld) {u : User} {w' : AuthWorld}
      → reset_password hasher hash_token env raw_token password w ≡ (ok u, w')
      → ResetFrom env raw_token password w w'
  unfolding reset_password
  reset_password-from env raw_token password w h =
      token_steps env raw_token password w
        (get_reset_by_token_hash (hash_token raw_token) w.working) refl h

  -- A token that is there but used is refused.
  used_is_refused :
      (env : AuthEnv) (raw_token password : String) (w : AuthWorld) (t : PasswordResetToken)
      → get_reset_by_token_hash (hash_token raw_token) w.working ≡ some t
      → is_some t.used_at ≡ true
      → reset_password hasher hash_token env raw_token password w
        ≡ (err (auth_error "INVALID_TOKEN"), w)
  unfolding reset_password
  used_is_refused env raw_token password w t found spent = rw (found, spent) refl

  -- A token with which a password has been reset is refused from then on, whatever the new password
  -- and the time.
  pub reset_password-once :
      (env later : AuthEnv) (raw_token password other : String) (w : AuthWorld) {u : User}
      {w' : AuthWorld}
      → reset_password hasher hash_token env raw_token password w ≡ (ok u, w')
      → reset_password hasher hash_token later raw_token other w'
        ≡ (err (auth_error "INVALID_TOKEN"), w')
  unfolding get_reset_by_token_hash use_reset_token update_user
  reset_password-once env later raw_token password other w {u} {w'} h =
      let r = reset_password-from env raw_token password w h in
      let own = eq_refl r.token.id in
      let spent : get_reset_by_token_hash (hash_token raw_token) w'.working
          ≡ some (used env.now r.token) =
        rw r.stored (
          find-change (λ t. t.token_hash == hash_token raw_token) (λ t. t.id == r.token.id)
            (used env.now) w.working.reset_tokens (λ t. refl)
          ∙ rw (r.found, own) refl) in
      used_is_refused later raw_token other w' (used env.now r.token) spent refl

  -- The tokens after a new one has been added.
  added_tokens :
      (new : PasswordResetToken) (d d' : AuthDb)
      → add_reset_token new d ≡ ok d'
      → All (λ t. (t.token_hash == new.token_hash || t.id == new.id) ≡ false) d.reset_tokens
        × (d' ≡ record d { reset_tokens = new ∷ d.reset_tokens })
  unfolding add_reset_token
  added_tokens new d d' h =
      elim (Bool-cases
        (any (λ t. t.token_hash == new.token_hash || t.id == new.id) d.reset_tokens)) [
          | inl clash ↦ absurd (cc (rw clash at h))
          | inr fresh ↦ (
            any-false (λ t. t.token_hash == new.token_hash || t.id == new.id) d.reset_tokens fresh,
            ok-injective (sym (rw fresh at h)),
          )
        ]

  issue_steps :
      (env : AuthEnv) (raw : String) (user : User) (w : AuthWorld) {o : Option String}
      {w' : AuthWorld}
      → issue_reset hasher hash_token env raw user w ≡ (ok o, w')
      → (d' : AuthDb) × (add_reset_token
            (new_token hasher hash_token env raw user)
            (invalidate_all_unused_for_user user.id env.now w.working)
          ≡ ok d')
        × (w'.working.reset_tokens ≡ d'.reset_tokens)
  issue_steps env raw user w h =
      let cleared = record w {
        working = invalidate_all_unused_for_user user.id env.now w.working;
      } in
      let (a, v, tried, rest) =
        >>=-returned (try_change (add_reset_token (new_token hasher hash_token env raw user)))
          (λ _.
            change_db (log (own_event env "auth.password_reset_requested" user))
            >> (commit_db >> pure (some raw)))
          cleared h in
      let (d', added, state) =
        try_change-returned (add_reset_token (new_token hasher hash_token env raw user)) cleared
          tried in
      (
        d',
        added,
        ap (λ y. y.1.working.reset_tokens) (sym rest) ∙ ap (λ y. y.working.reset_tokens) state,
      )

  -- The row of an older token after a new one has been issued to its user.
  superseded :
      (env : AuthEnv) (raw old : String) (user : User) (d d' : AuthDb) (t : PasswordResetToken)
      → get_reset_by_token_hash (hash_token old) d ≡ some t
      → t.user_id ≡ user.id
      → add_reset_token
          (new_token hasher hash_token env raw user)
          (invalidate_all_unused_for_user user.id env.now d)
        ≡ ok d'
      → (x : PasswordResetToken) × (get_reset_by_token_hash (hash_token old) d' ≡ some x)
        × (is_some x.used_at ≡ true)
  unfolding get_reset_by_token_hash invalidate_all_unused_for_user
  superseded env raw old user d d' t found owner added =
      let own = λ (q : PasswordResetToken). q.user_id == user.id && not (is_some q.used_at) in
      let x : PasswordResetToken = if own t then used env.now t else t in
      let (fresh, grown) =
        added_tokens (new_token hasher hash_token env raw user)
          (invalidate_all_unused_for_user user.id env.now d) d' added in
      let kept : find (λ q. q.token_hash == hash_token old)
            (change own (used env.now) d.reset_tokens)
          ≡ some x =
        find-change (λ q. q.token_hash == hash_token old) own (used env.now) d.reset_tokens
          (λ q. refl)
        ∙ rw found refl in
      let apart : (x.token_hash == hash_token raw || x.id == env.new_id) ≡ false =
        find_elim (λ q. (q.token_hash == hash_token raw || q.id == env.new_id) ≡ false)
          (λ q. q.token_hash == hash_token old) (change own (used env.now) d.reset_tokens) fresh
          kept in
      let mine : (x.token_hash == hash_token old) ≡ true =
        find_holds (λ q. q.token_hash == hash_token old) (change own (used env.now) d.reset_tokens)
          kept in
      let same_hash : x.token_hash ≡ hash_token old =
        (eq_iff x.token_hash (hash_token old)).0 mine in
      let different : (hash_token raw == hash_token old) ≡ false =
        apart_hashes x.token_hash (hash_token raw) (hash_token old) (x.id == env.new_id) same_hash
          apart in
      (x, rw (grown, different) kept, invalidated_is_used user.id env.now t owner)

  -- A new reset token of an account makes its older ones useless, at once and for good.
  pub request_password_reset-supersedes :
      (env later : AuthEnv) (raw old email password : String) (user : User) (t : PasswordResetToken)
      (w : AuthWorld) {o : Option String} {w' : AuthWorld}
      → get_by_email (normal_email email) w.working ≡ some user
      → get_reset_by_token_hash (hash_token old) w.working ≡ some t
      → t.user_id ≡ user.id
      → request_password_reset hasher hash_token env raw email w ≡ (ok o, w')
      → reset_password hasher hash_token later old password w'
        ≡ (err (auth_error "INVALID_TOKEN"), w')
  unfolding request_password_reset
  request_password_reset-supersedes env later raw old email password user t w {o} {w'} account found
        owner h =
      let (d', added, tokens) = issue_steps env raw user w (rw account at h) in
      let (x, there, spent) = superseded env raw old user w.working d' t found owner added in
      used_is_refused later old password w' x
        (by_tokens (hash_token old) d' w'.working (sym tokens) there) spent
