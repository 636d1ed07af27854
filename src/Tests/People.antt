-- ===== src/Tests/People.antt =====
-- Accounts, sessions and tokens for the witnesses.
use vapivoiceassistant.Prelude.{
  ℕ, String, true, false, ◌==◌, Option, none, some, List, [], ◌∷◌, join,
}
use vapivoiceassistant.RateLimiter.{InMemoryRateLimitStore, BackoffLockout}
use vapivoiceassistant.Auth.{User, UserSession, PasswordResetToken, AuthDb, AuthWorld, AuthEnv}
use vapivoiceassistant.Auth.Accounts.{PasswordHasher}

abbrev pub hashed : String → String
hashed s = join "h:" s

abbrev pub hasher : PasswordHasher
hasher = record {
  hash = λ p. join "argon:" p;
  verify = λ p h. h == join "argon:" p;
  needs_rehash = λ _. false;
}

abbrev pub ada : User
ada = record {
  id = "u1";
  email = "ada@example.org";
  password_hash = "argon:old";
  first_name = some "Ada";
  last_name = some "Byron";
  phone = none;
  status = "ACTIVE";
  email_verified = true;
  customer_id = some "c1";
  last_login_at = none;
  deleted_at = none;
}

abbrev pub browser : UserSession
browser = record {
  id = "s1";
  user_id = "u1";
  session_token_hash = "h:cookie";
  expires_at = 5000;
  last_used_at = 100;
  revoked_at = none;
  ip_hash = none;
  user_agent_hash = none;
}

abbrev pub link : PasswordResetToken
link = record {
  id = "t1";
  user_id = "u1";
  token_hash = "h:link";
  expires_at = 5000;
  used_at = none;
}

abbrev pub accounts : List User → AuthDb
accounts users = record {
  users = users;
  sessions = browser ∷ [];
  reset_tokens = link ∷ [];
  roles = "CUSTOMER" ∷ [];
  user_roles = ("u1", "CUSTOMER") ∷ [];
  audit_logs = [];
}

abbrev pub no_failures : InMemoryRateLimitStore
no_failures = record { windows = []; failures = [] }

abbrev pub world_of : AuthDb → AuthWorld
world_of d = record { committed = d; working = d; limits = no_failures }

abbrev pub with_ada : AuthWorld
with_ada = world_of (accounts (ada ∷ []))

abbrev pub without_ada : AuthWorld
without_ada = world_of (accounts [])

abbrev pub request_at : ℕ → AuthEnv
request_at now = record { now = now; new_id = "n1"; request_id = some "r1" }

abbrev pub lockout : Option BackoffLockout
lockout = some (record { threshold = 3; base_backoff_seconds = 30; max_backoff_seconds = 900 })
