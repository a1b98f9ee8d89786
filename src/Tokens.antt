-- ===== src/Tokens.antt =====
-- src/auth/tokenManager.ts: the token sessions of the HTTP transport. A method takes the manager
-- and the clock, and returns the new manager with its result. A loop that waits for the callback is
-- cut into its turns. Calls of the cleanup callback are
-- recorded in `notified`, the last one at the end. Logging is left out.
pub mod Invariant
pub mod Lifetime
pub mod Grants
pub mod Revocation
mod Tests
use mcp_server_db2i.Prelude.{
  ℕ, ◌+◌, ◌*◌, min, suc, String, Bool, true, false, not, Option, none, some, List, [], ◌∷◌, ◌++◌,
  ltb, leb, if◌then◌else◌, str_eq, is_text, or_else, length, any, filter,
}
use mcp_server_db2i.Prelude.Table.{Table, get, set, delete, keep, keys_where, values}

pub record Db2iConfig : Type 0 where
  pub hostname : String
  pub port : ℕ
  pub username : String
  pub password : String
  pub database : String
  pub schema : String
  pub driver : String
  pub jdbc_options : List (String × String)
  pub odbc_options : List (String × String)
  pub mapepire_options : Option (List (String × String))
  pub query_timeout : Option ℕ

pub record TokenSession : Type 0 where
  pub token : String
  pub config : Db2iConfig
  pub system : String
  pub client_id : Option String
  pub grant_id : Option String
  pub created_at : ℕ
  pub expires_at : ℕ
  pub last_used_at : ℕ

-- The settings of getHttpConfig() that the manager reads.
pub record Limits : Type 0 where
  pub max_sessions : ℕ
  pub token_expiry : ℕ

pub record TokenManager : Type 0 where
  pub sessions : Table TokenSession
  pub timer : Bool
  pub callback : Bool
  pub notified : List (String × TokenSession)

pub data Validation : Type 0 where
  valid : TokenSession → Validation
  invalid : String → Validation

pub record Issued : Type 0 where
  pub token : String
  pub expires_at : ℕ
  pub expires_in : ℕ

-- The clock is in milliseconds.
unfoldable pub has_expired : ℕ → TokenSession → Bool
has_expired now s = ltb s.expires_at now

-- Every token of one sign-in shares its grant's pool key.
unfoldable pub session_pool_key : String → Option String → String
session_pool_key token none = token
session_pool_key token (some g) = if str_eq g "" then token else Prim.Native.String.◌++◌ "grant:" g

unfoldable pub init : TokenManager
init = record { sessions = []; timer = true; callback = false; notified = [] }

unfoldable pub notify_cleanup : List (String × TokenSession) → TokenManager → TokenManager
notify_cleanup gone m = if m.callback then record m { notified = m.notified ++ gone } else m

unfoldable pub expiry_seconds : Limits → Option ℕ → ℕ
expiry_seconds l duration = min (or_else duration l.token_expiry) l.token_expiry

-- The session object that createSession stores.
unfoldable pub new_session :
    Limits
    → String
    → ℕ
    → Db2iConfig
    → Option ℕ
    → String
    → Option String
    → Option String
    → TokenSession
unfolding expiry_seconds
new_session l token now config duration system client grant = record {
  token = token;
  config = config;
  system = system;
  client_id = client;
  grant_id = grant;
  created_at = now;
  expires_at = now + expiry_seconds l duration * 1000;
  last_used_at = now;
}

-- `token` is the text that generateTokenString draws. `none` is the error at the session limit.
unfoldable pub create_session :
    Limits
    → String
    → ℕ
    → Db2iConfig
    → Option ℕ
    → String
    → Option String
    → Option String
    → TokenManager
    → Option (TokenManager × Issued)
unfolding new_session
create_session l token now config duration system client grant m =
    let session = new_session l token now config duration system client grant in
    if leb l.max_sessions (length m.sessions)
    then none
    else some (
      record m { sessions = set token session m.sessions },
      record {
        token = token;
        expires_at = session.expires_at;
        expires_in = expiry_seconds l duration;
      },
    )

-- The check of a session that was found.
unfoldable pub validate_found : String → ℕ → TokenSession → TokenManager → TokenManager × Validation
unfolding has_expired notify_cleanup
validate_found token now s m =
    if has_expired now s
    then (
      notify_cleanup ((token, s) ∷ []) (record m { sessions = delete token m.sessions }),
      invalid "Token expired",
    )
    else (let used : TokenSession = record s { last_used_at = now } in
        (record m { sessions = set token used m.sessions }, valid used))

unfoldable pub validate_token : String → ℕ → TokenManager → TokenManager × Validation
unfolding validate_found
validate_token token now m =
    if str_eq token "" then (m, invalid "Invalid token format") else (elim (get token m.sessions) [
      | none ↦ (m, invalid "Token not found or expired")
      | some s ↦ validate_found token now s m
    ])

unfoldable pub get_session : String → TokenManager → Option TokenSession
get_session token m = get token m.sessions

unfoldable pub revoke_token : String → TokenManager → TokenManager × Bool
unfolding notify_cleanup
revoke_token token m = elim (get token m.sessions) [
  | none ↦ (m, false)
  | some s ↦
      (notify_cleanup ((token, s) ∷ []) (record m { sessions = delete token m.sessions }), true)
]

abbrev pub of_grant : String → TokenSession → Bool
of_grant g s = is_text s.grant_id g

pub revoke_tokens : List String → TokenManager → TokenManager
unfolding revoke_token
revoke_tokens [] m = m
revoke_tokens (t ∷ ts) m = revoke_tokens ts (revoke_token t m).0

-- The tokens are collected first, and then revoked one after the other.
unfoldable pub revoke_grant : String → TokenManager → TokenManager × ℕ
unfolding revoke_tokens
revoke_grant g m =
    let tokens = keys_where (of_grant g) m.sessions in (revoke_tokens tokens m, length tokens)

unfoldable pub has_grant : String → TokenManager → Bool
has_grant g m = any (of_grant g) (values m.sessions)

pub record Stats : Type 0 where
  pub total_sessions : ℕ
  pub active_sessions : ℕ
  pub expired_sessions : ℕ

-- The loop of getStats.
pub count_sessions : ℕ → List TokenSession → ℕ → ℕ → ℕ × ℕ
count_sessions now [] active expired = (active, expired)
count_sessions now (s ∷ ss) active expired =
    let running = leb now s.expires_at in
    count_sessions now ss (if running then active + 1 else active)
      (if running then expired else expired + 1)

unfoldable pub get_stats : ℕ → TokenManager → Stats
unfolding count_sessions
get_stats now m =
    let (active, expired) = count_sessions now (values m.sessions) 0 0 in
    record {
      total_sessions = length m.sessions;
      active_sessions = active;
      expired_sessions = expired;
    }

-- The first loop of cleanupExpiredSessions: what it collects before it waits for anything.
unfoldable pub expired_sessions : ℕ → TokenManager → List (String × TokenSession)
unfolding has_expired
expired_sessions now m = keep (has_expired now) m.sessions

-- A turn of its second loop, up to the wait for the callback. Other calls run between two turns, so the
-- session may be gone by then, and is reported all the same.
unfoldable pub drop_expired : String → TokenSession → TokenManager → TokenManager
unfolding notify_cleanup
drop_expired token s m =
    notify_cleanup ((token, s) ∷ []) (record m { sessions = delete token m.sessions })

-- shutdown up to its loop, with the sessions that the loop goes over. A turn of the loop is
-- `report_session`, and other calls run between two turns.
unfoldable pub begin_shutdown : TokenManager → TokenManager × List (String × TokenSession)
begin_shutdown m = (record m { sessions = []; timer = false }, m.sessions)

unfoldable pub report_session : String → TokenSession → TokenManager → TokenManager
unfolding notify_cleanup
report_session token s m = notify_cleanup ((token, s) ∷ []) m

unfoldable pub can_create_session : Limits → TokenManager → Bool
can_create_session l m = ltb (length m.sessions) l.max_sessions

unfoldable pub set_cleanup_callback : TokenManager → TokenManager
set_cleanup_callback m = record m { callback = true }
