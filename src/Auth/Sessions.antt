-- ===== src/Auth/Sessions.antt =====
-- `SessionService` of apps/api/app/services/session_service.py.
pub mod Lifecycle
use vapivoiceassistant.Prelude.{
  ℕ, ◌+◌, ◌*◌, String, Bool, true, false, ◌&&◌, ◌||◌, Option, none, some, List, [], ◌∷◌, ◌==◌, join,
  keep, length, change, is_some, leb, if◌then◌else◌,
}
use vapivoiceassistant.Errors.{Result, ok, err, Action, pure}
use vapivoiceassistant.Actions.{◌>>=◌, ◌>>◌}
use vapivoiceassistant.Models.{AuditLog, MetaValue, text, amount}
use vapivoiceassistant.Prelude.Int.{pos}
use vapivoiceassistant.Auth.{
  User, UserSession, AuthDb, AuthWorld, AuthEnv, ask, change_db, try_change, commit_db, log,
  user_event, get_session_by_token_hash, add_session, update_session, is_active_for, revoked,
  revoke_active,
}

abbrev pub default_session_ttl : ℕ
default_session_ttl = 14 * 86400

abbrev pub session_event : AuthEnv → String → String → String → AuditLog
session_event env action user_id session_id = record {
  actor = join "user:" user_id;
  actor_type = "user";
  action = action;
  resource = "session";
  resource_id = some session_id;
  request_id = env.request_id;
  call_id = none;
  event_metadata = [];
}

abbrev pub touched : ℕ → UserSession → UserSession
touched now s = record s { last_used_at = now }

-- `session is None or session.revoked_at is not None or is_expired(session.expires_at)`
abbrev pub live_session : ℕ → Option UserSession → Option UserSession
live_session now none = none
live_session now (some s) = if is_some s.revoked_at || leb s.expires_at now then none else some s

module _ (hash_token : String → String) (env : AuthEnv) where
  abbrev pub new_session : String → ℕ → Option String → Option String → User → UserSession
  new_session raw ttl ip_hash user_agent_hash user = record {
    id = env.new_id;
    user_id = user.id;
    session_token_hash = hash_token raw;
    expires_at = env.now + ttl;
    last_used_at = env.now;
    revoked_at = none;
    ip_hash = ip_hash;
    user_agent_hash = user_agent_hash;
  }

  -- `raw` is the token that is drawn; the CSRF token of the session is issued beside it.
  unfoldable pub create_session :
      String → ℕ → Option String → Option String → User → Action AuthWorld (String × UserSession)
  create_session raw ttl ip_hash user_agent_hash user = do
    let session = new_session raw ttl ip_hash user_agent_hash user
    try_change (add_session session)
    change_db (log (session_event env "auth.session_created" user.id session.id))
    commit_db
    pure (raw, session)

  abbrev pub touch_live : Option UserSession → Action AuthWorld (Option UserSession)
  touch_live none w = (ok none, w)
  touch_live (some s) w = (
    ok (some (touched env.now s)),
    record w { working = update_session s.id (touched env.now) w.working },
  )

  -- The time of the last use is written and not committed.
  unfoldable pub validate_session : String → Action AuthWorld (Option UserSession)
  validate_session raw_token w =
      touch_live (live_session env.now (get_session_by_token_hash (hash_token raw_token) w.working))
        w

  abbrev pub rotated : String → ℕ → UserSession → UserSession
  rotated raw ttl s = record s {
    session_token_hash = hash_token raw;
    expires_at = env.now + ttl;
    last_used_at = env.now;
  }

  unfoldable pub refresh_session : String → ℕ → UserSession → Action AuthWorld String
  refresh_session raw ttl session = do
    change_db (update_session session.id (rotated raw ttl))
    commit_db
    pure raw

  unfoldable pub revoke : UserSession → Action AuthWorld (Unit {0})
  revoke session = do
    change_db (update_session session.id (revoked env.now))
    change_db (log (session_event env "auth.session_revoked" session.user_id session.id))
    commit_db

  abbrev count_active : String → AuthDb → ℕ
  count_active user_id d = length (keep (is_active_for user_id env.now) d.sessions)

  abbrev revoked_event : String → ℕ → String → AuditLog
  revoked_event user_id count reason =
      user_event env (join "user:" user_id) "auth.all_sessions_revoked" (some user_id)
        (("count", amount (pos count)) ∷ ("reason", text reason) ∷ [])

  unfoldable pub revoke_all_for_user : String → String → Action AuthWorld ℕ
  revoke_all_for_user user_id reason = do
    count ← ask (count_active user_id)
    change_db (revoke_active user_id env.now)
    change_db (log (revoked_event user_id count reason))
    commit_db
    pure count
