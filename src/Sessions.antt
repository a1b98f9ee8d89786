-- ===== src/Sessions.antt =====
-- src/transports/sessionManager.ts: the MCP sessions of the HTTP transport.
-- closeSession waits while the transport and the server close: `begin_close` is what runs before that
-- (it marks the session and calls transport.close, which `closed` lists), and `end_close` what runs
-- after it. Session IDs, the clock (milliseconds) and the outcome of server.connect are arguments.
pub mod Closing
pub mod Counts
mod Tests
use mcp_server_db2i.Prelude.{
  ℕ, ◌+◌, ◌-◌, String, Bool, true, false, not, ◌&&◌, Option, none, some, List, [], ◌∷◌, ◌++◌, ltb,
  ◌==◌, if◌then◌else◌, str_eq, length,
}
use mcp_server_db2i.Prelude.Table.{Table, get, set, delete, keys_where, keep, values}

pub record McpSession : Type 0 where
  pub server : String
  pub auth_token : String
  pub created_at : ℕ
  pub last_accessed_at : ℕ
  pub active_requests : ℕ
  pub is_closing : Bool

pub record SessionManager : Type 0 where
  pub sessions : Table McpSession
  pub closed : List String
  pub timer : Bool

abbrev pub stale_timeout_ms : ℕ
stale_timeout_ms = 1_800_000

-- Stores a new session if the server could be connected.
unfoldable pub create_session :
    String → String → String → Bool → ℕ → SessionManager → SessionManager × Bool
create_session id server token connected now m =
    if connected
    then (
      record m {
        sessions =
            set id
              (record {
                server = server;
                auth_token = token;
                created_at = now;
                last_accessed_at = now;
                active_requests = 0;
                is_closing = false;
              })
              m.sessions;
      },
      true,
    )
    else (m, false)

-- The loop of listServers.
unfoldable pub servers_of : Table McpSession → List String
servers_of [] = []
servers_of ((id, s) ∷ ss) =
    let rest = servers_of ss in if s.is_closing then rest else s.server ∷ rest

-- The servers of the sessions that are open.
unfoldable pub list_servers : SessionManager → List String
unfolding servers_of
list_servers m = servers_of m.sessions

unfoldable pub get_session : String → ℕ → SessionManager → SessionManager × Option McpSession
get_session id now m = elim (get id m.sessions) [
  | none ↦ (m, none)
  | some s ↦
      if s.is_closing
      then (m, none)
      else (let used : McpSession = record s { last_accessed_at = now } in
          (record m { sessions = set id used m.sessions }, some used))
]

-- Is the session of a lookup there and not closing?
abbrev pub is_open : Option McpSession → Bool
is_open none = false
is_open (some s) = not s.is_closing

unfoldable pub has_session : String → SessionManager → Bool
has_session id m = is_open (get id m.sessions)

unfoldable pub increment_active_requests : String → ℕ → SessionManager → SessionManager
increment_active_requests id now m = elim (get id m.sessions) [
  | none ↦ m
  | some s ↦ record m {
    sessions =
        set id (record s { active_requests = s.active_requests + 1; last_accessed_at = now })
          m.sessions;
  }
]

unfoldable pub decrement_active_requests : String → ℕ → SessionManager → SessionManager
decrement_active_requests id now m = elim (get id m.sessions) [
  | none ↦ m
  | some s ↦
      if ltb 0 s.active_requests
      then record m {
        sessions =
            set id (record s { active_requests = s.active_requests - 1; last_accessed_at = now })
              m.sessions;
      }
      else m
]

-- closeSession up to transport.close; `false`: there is nothing to close.
unfoldable pub begin_close : String → SessionManager → SessionManager × Bool
begin_close id m = elim (get id m.sessions) [
  | none ↦ (m, false)
  | some s ↦ if s.is_closing then (m, false) else (
    record m {
      sessions = set id (record s { is_closing = true }) m.sessions;
      closed = m.closed ++ id ∷ [];
    },
    true,
  )
]

-- closeSession once the transport and the server were closed, or failed to.
unfoldable pub end_close : String → SessionManager → SessionManager
end_close id m = record m { sessions = delete id m.sessions }

abbrev pub has_token : String → McpSession → Bool
has_token token s = str_eq s.auth_token token

-- The sessions that closeSessionsByToken collects. It then closes them one after the other, and waits for
-- each: a turn is `begin_close` and `end_close`, and other calls run in between.
unfoldable pub sessions_to_close : String → SessionManager → List String
sessions_to_close token m = keys_where (has_token token) m.sessions

-- A clock that went back makes the age negative in the source, and 0 here: neither is over the limit.
abbrev pub is_aged : ℕ → McpSession → Bool
is_aged now s = ltb stale_timeout_ms (now - s.last_accessed_at)

abbrev pub is_stale : ℕ → McpSession → Bool
is_stale now s = not s.is_closing && (is_aged now s && s.active_requests == 0)

-- The sessions that cleanupStaleSessions collects, and then closes with the same waits: one that gets a
-- request meanwhile is closed all the same.
unfoldable pub stale_session_ids : ℕ → SessionManager → List String
stale_session_ids now m = keys_where (is_stale now) m.sessions

pub record Stats : Type 0 where
  pub total_sessions : ℕ
  pub active_sessions : ℕ
  pub stale_sessions : ℕ

-- The loop of getStats.
unfoldable pub count_open : ℕ → Table McpSession → ℕ → ℕ → ℕ × ℕ
count_open now [] active stale = (active, stale)
count_open now ((id, s) ∷ ss) active stale =
    let old = is_aged now s in
    count_open now ss (if s.is_closing then active else if old then active else active + 1)
      (if s.is_closing then stale else if old then stale + 1 else stale)

unfoldable pub get_stats : ℕ → SessionManager → Stats
unfolding count_open
get_stats now m =
    let (active, stale) = count_open now m.sessions 0 0 in
    record { total_sessions = length m.sessions; active_sessions = active; stale_sessions = stale }

-- shutdown up to its loop, with the sessions that it goes over, one after the other.
unfoldable pub begin_shutdown : SessionManager → SessionManager × List String
begin_shutdown m = (record m { timer = false }, keys_where (λ (s : McpSession). true) m.sessions)
