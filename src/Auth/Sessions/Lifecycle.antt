-- ===== src/Auth/Sessions/Lifecycle.antt =====
-- When a session token is good: from its creation to its end, its rotation or its revocation.
use vapivoiceassistant.Prelude.{
  ℕ, ◌+◌, ◌≤◌, String, ◌≡◌, refl, ◌∙◌, sym, ap, subst, true, false, not, ◌||◌, Option, none, some,
  ◌==◌, arith, find, any, changed, find-change, eq_refl, eq_iff, is_some, leb, Bool-cases, inl, inr,
  if◌then◌else◌,
}
use vapivoiceassistant.Errors.{Result, ok, ok-injective, pure}
use vapivoiceassistant.Actions.{◌>>◌, >>=-returned}
use vapivoiceassistant.Auth.{
  User, UserSession, AuthDb, AuthWorld, AuthEnv, try_change, try_change-returned, change_db,
  commit_db, log, get_session_by_token_hash, add_session, update_session, is_active_for, revoked,
  revoke_active,
}
use vapivoiceassistant.Auth.Sessions.{
  touched, live_session, new_session, create_session, touch_live, validate_session, session_event,
  revoke, revoke_all_for_user,
}

-- The session that a token opens at a time, if any.
abbrev pub opened_by :
    (String → String) → AuthEnv → String → AuthWorld → Result (Option UserSession)
opened_by hash_token env raw_token w = (validate_session hash_token env raw_token w).0

-- The session, if it is there and live, with the time of its use.
abbrev in_use : ℕ → Option UserSession → Option UserSession
in_use now none = none
in_use now (some s) =
    if is_some s.revoked_at || leb s.expires_at now then none else some (touched now s)

found_added :
    (session : UserSession) (d d' : AuthDb)
    → add_session session d ≡ ok d'
    → get_session_by_token_hash session.session_token_hash d' ≡ some session
unfolding add_session get_session_by_token_hash
found_added session d d' h =
    elim (Bool-cases (
      any (λ s. s.session_token_hash == session.session_token_hash || s.id == session.id)
        d.sessions)) [
          | inl clash ↦ absurd (cc (rw clash at h))
          | inr fresh ↦
              rw (ok-injective (sym (rw fresh at h)), eq_refl session.session_token_hash) refl
        ]

-- What the search by a hash finds after a change of the row with an id.
found_updated :
    (id token_hash : String) (f : UserSession → UserSession) (d : AuthDb)
    → ((s : UserSession) → (f s).session_token_hash ≡ s.session_token_hash)
    → get_session_by_token_hash token_hash (update_session id f d)
      ≡ changed (λ s. s.id == id) f (get_session_by_token_hash token_hash d)
unfolding get_session_by_token_hash update_session
found_updated id token_hash f d same =
    find-change (λ s. s.session_token_hash == token_hash) (λ s. s.id == id) f d.sessions
      (λ s. ap (λ h. h == token_hash) (same s))

by_sessions :
    (token_hash : String) (d d' : AuthDb) {s : UserSession}
    → d.sessions ≡ d'.sessions
    → get_session_by_token_hash token_hash d ≡ some s
    → get_session_by_token_hash token_hash d' ≡ some s
unfolding get_session_by_token_hash
by_sessions token_hash d d' {s} same found =
    subst (λ ss. find (λ q. q.session_token_hash == token_hash) ss ≡ some s) same found

ended_or_revoked :
    (now later : ℕ) (s : UserSession)
    → now ≤ later
    → is_some s.revoked_at ≡ false
    → in_use later (some (if not (leb s.expires_at now) then revoked now s else s)) ≡ none
ended_or_revoked now later s after open_now = elim (Bool-cases (leb s.expires_at now)) [
  | inr going ↦ rw going refl
  | inl ended ↦
      let still : leb s.expires_at later ≡ true = ground arith in rw (ended, open_now, still) refl
]

-- A session of the user was dead, or is revoked.
active_is_shut :
    (now later : ℕ) (user_id : String) (s : UserSession)
    → now ≤ later
    → s.user_id ≡ user_id
    → in_use later (some (if is_active_for user_id now s then revoked now s else s)) ≡ none
unfolding is_active_for
active_is_shut now later user_id s after owner =
    let own : (s.user_id == user_id) ≡ true = (eq_iff s.user_id user_id).1 owner in
    elim (Bool-cases (is_some s.revoked_at)) [
      | inl shut ↦ rw (own, shut) (rw shut refl)
      | inr open_now ↦ rw (own, open_now) (ended_or_revoked now later s after open_now)
    ]

module _ (hash_token : String → String) where
  touch_answer :
      (env : AuthEnv) (w : AuthWorld) (o : Option UserSession)
      → (touch_live hash_token env (live_session env.now o) w).0 ≡ ok (in_use env.now o)
  touch_answer env w none = refl
  touch_answer env w (some s) =
      elim (Bool-cases (is_some s.revoked_at || leb s.expires_at env.now)) [
        | inl dead ↦ rw dead refl
        | inr live ↦ rw live refl
      ]

  opened_by-found :
      (env : AuthEnv) (raw_token : String) (w : AuthWorld)
      → opened_by hash_token env raw_token w
        ≡ ok (in_use env.now (get_session_by_token_hash (hash_token raw_token) w.working))
  unfolding validate_session
  opened_by-found env raw_token w =
      touch_answer env w (get_session_by_token_hash (hash_token raw_token) w.working)

  -- The token of a new session opens that session until its end.
  pub create_session-validate :
      (env later : AuthEnv) (raw : String) (ttl : ℕ) (ip_hash user_agent_hash : Option String)
      (user : User) (w : AuthWorld) {r : String × UserSession} {w' : AuthWorld}
      → create_session hash_token env raw ttl ip_hash user_agent_hash user w ≡ (ok r, w')
      → opened_by hash_token later raw w'
        ≡ ok (
            if leb (env.now + ttl) later.now
            then none
            else some (
                touched later.now
                  (new_session hash_token env raw ttl ip_hash user_agent_hash user)))
  unfolding create_session
  create_session-validate env later raw ttl ip_hash user_agent_hash user w {r} {w'} h =
      let session = new_session hash_token env raw ttl ip_hash user_agent_hash user in
      let (a, v, tried, rest) =
        >>=-returned (try_change (add_session session))
          (λ _.
            change_db (log (session_event env "auth.session_created" user.id session.id))
            >> (commit_db >> pure (raw, session)))
          w h in
      let (d, added, state) = try_change-returned (add_session session) w tried in
      let stored : w'.working.sessions ≡ d.sessions =
        ap (λ y. y.1.working.sessions) (sym rest) ∙ ap (λ y. y.working.sessions) state in
      opened_by-found later raw w'
      ∙ ap (λ o. ok (in_use later.now o))
          (by_sessions (hash_token raw) d w'.working (sym stored)
            (found_added session w.working d added))

  -- A session that is revoked is not opened by its token any more.
  pub revoke-validate :
      (env later : AuthEnv) (raw : String) (session : UserSession) (w : AuthWorld)
      → get_session_by_token_hash (hash_token raw) w.working ≡ some session
      → opened_by hash_token later raw (revoke hash_token env session w).1 ≡ ok none
  unfolding revoke get_session_by_token_hash update_session
  revoke-validate env later raw session w found =
      opened_by-found later raw (revoke hash_token env session w).1
      ∙ ap (λ o. ok (in_use later.now o)) {y = some (revoked env.now session)}
          (found_updated session.id (hash_token raw) (revoked env.now) w.working (λ s. refl)
            ∙ rw (found, eq_refl session.id) refl)

  -- All sessions of a user that are live are revoked at once: no token opens a session of that user
  -- from then on.
  pub revoke_all_for_user-validate :
      (env later : AuthEnv) (user_id reason raw : String) (s : UserSession) (w : AuthWorld)
      → env.now ≤ later.now
      → get_session_by_token_hash (hash_token raw) w.working ≡ some s
      → s.user_id ≡ user_id
      → opened_by hash_token later raw (revoke_all_for_user hash_token env user_id reason w).1
        ≡ ok none
  unfolding revoke_all_for_user get_session_by_token_hash revoke_active
  revoke_all_for_user-validate env later user_id reason raw s w after found owner =
      opened_by-found later raw (revoke_all_for_user hash_token env user_id reason w).1
      ∙ ap (λ o. ok (in_use later.now o))
          {y = some (if is_active_for user_id env.now s then revoked env.now s else s)}
          (find-change (λ q. q.session_token_hash == hash_token raw) (is_active_for user_id env.now)
              (revoked env.now) w.working.sessions (λ q. refl)
            ∙ rw found refl)
      ∙ ap ok (active_is_shut env.now later.now user_id s after owner)
