-- ===== src/Auth/Requests/Identity.antt =====
-- Whom `get_current_actor` takes a request to come from.
use vapivoiceassistant.Prelude.{
  String, ◌≡◌, refl, ap, sym, true, false, ◌||◌, Option, none, some, ◌==◌, is_some, leb, Bool-cases,
  inl, inr,
}
use vapivoiceassistant.Errors.{ok, ok-injective, pure}
use vapivoiceassistant.Actions.{◌>>=◌, >>=-returned}
use vapivoiceassistant.Access.Actor.{CurrentActor, is_authenticated_human}
use vapivoiceassistant.Auth.{
  User, UserSession, AuthWorld, AuthEnv, ask, get_user_by_id, get_session_by_token_hash,
  update_session,
}
use vapivoiceassistant.Auth.Sessions.{live_session, touched, touch_live, validate_session}
use vapivoiceassistant.Auth.Requests.{
  anonymous, is_gone, human, roles_for_user, permissions_for_user, actor_for, actor_in,
  get_current_actor, on_db,
}

module _ (hash_token : String → String) (env : AuthEnv) where
  -- The request comes with the token of a live session of the account, which is neither deleted nor
  -- disabled.
  pub record IsFrom (token : String) (w : AuthWorld) (a : CurrentActor) : Type 0 where
    session : UserSession
    user : User
    found : get_session_by_token_hash (hash_token token) w.working ≡ some session
    live : (is_some session.revoked_at || leb session.expires_at env.now) ≡ false
    owner : get_user_by_id session.user_id w.working ≡ some user
    here : is_gone user ≡ false
    named : a.user_id ≡ some user.id

  nobody : (a : CurrentActor) → a ≡ anonymous env.request_id → is_authenticated_human a ≡ true → ⊥
  unfolding is_authenticated_human
  nobody a e h = absurd (cc (rw e at h))

  user_steps :
      (o : Option User) (w : AuthWorld) {a : CurrentActor} {w' : AuthWorld}
      → actor_for hash_token env o w ≡ (ok a, w')
      → is_authenticated_human a ≡ true
      → (user : User) × (o ≡ some user) × (is_gone user ≡ false) × (a.user_id ≡ some user.id)
  user_steps none w {a} h known = absurd (nobody a (sym (ok-injective (ap (λ y. y.0) h))) known)
  user_steps (some user) w {a} h known = elim (Bool-cases (is_gone user)) [
    | inl gone ↦ absurd (nobody a (sym (ok-injective (ap (λ y. y.0) (rw gone at h)))) known)
    | inr here ↦
        let (roles, v, asked, rest) =
          >>=-returned (ask (roles_for_user user.id))
            (λ roles. on_db (permissions_for_user user.id) >>= λ permissions.
              pure (human hash_token env user roles permissions))
            w (rw here at h) in
        let (permissions, u, granted, last) =
          >>=-returned (on_db (permissions_for_user user.id))
            (λ permissions. pure (human hash_token env user roles permissions)) v rest in
        (
          user,
          refl,
          here,
          ap (λ (x : CurrentActor). x.user_id) (sym (ok-injective (ap (λ y. y.0) last))),
        )
  ]

  -- A session that has been found, by whether it is live.
  session_steps :
      (token : String) (w : AuthWorld) (o : Option UserSession) {a : CurrentActor} {w' : AuthWorld}
      → get_session_by_token_hash (hash_token token) w.working ≡ o
      → (touch_live hash_token env (live_session env.now o) >>= actor_in hash_token env) w
        ≡ (ok a, w')
      → is_authenticated_human a ≡ true
      → IsFrom token w a
  unfolding get_user_by_id update_session
  session_steps token w none {a} found h known =
      absurd (nobody a (sym (ok-injective (ap (λ y. y.0) h))) known)
  session_steps token w (some s) {a} found h known =
      elim (Bool-cases (is_some s.revoked_at || leb s.expires_at env.now)) [
        | inl dead ↦ absurd (nobody a (sym (ok-injective (ap (λ y. y.0) (rw dead at h)))) known)
        | inr live ↦
            let touched_db = record w {
              working = update_session s.id (touched env.now) w.working;
            } in
            let (user, owner, here, named) =
              user_steps (get_user_by_id s.user_id w.working) touched_db (rw live at h) known in
            record {
              session = s;
              user = user;
              found = found;
              live = live;
              owner = owner;
              here = here;
              named = named;
            }
      ]

  -- A request is taken to come from a signed-in person only with the token of a live session of that
  -- person's account, which is neither deleted nor disabled.
  pub get_current_actor-IsFrom :
      (token : String) (w : AuthWorld) {a : CurrentActor} {w' : AuthWorld}
      → (token == "") ≡ false
      → get_current_actor hash_token env (some token) w ≡ (ok a, w')
      → is_authenticated_human a ≡ true
      → IsFrom token w a
  unfolding get_current_actor validate_session
  get_current_actor-IsFrom token w given h known =
      session_steps token w (get_session_by_token_hash (hash_token token) w.working) refl
        (rw given at h) known
