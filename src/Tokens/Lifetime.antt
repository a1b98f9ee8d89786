-- ===== src/Tokens/Lifetime.antt =====
-- src/auth/tokenManager.ts: how long a token is accepted, the limit on sessions, and the statistics.
use mcp_server_db2i.Prelude.{
  ℕ, ◌+◌, ◌*◌, min, String, Option, some, List, [], ◌∷◌, ◌≡◌, ◌≢◌, arith, length, if◌then◌else◌,
  leb, ltb, or_else, eq_iff, is_some, length-map,
}
use mcp_server_db2i.Prelude.Table.{Table, keep, values, get-set, get-delete}
use mcp_server_db2i.Tokens.{
  Db2iConfig, TokenSession, Limits, TokenManager, valid, invalid, Issued, create_session,
  validate_found, validate_token, expired_sessions, has_expired, can_create_session, get_stats,
  count_sessions, expiry_seconds, new_session, get_session, revoke_token,
}
use mcp_server_db2i.Tokens.Invariant.{sessions-revoke_token}

module _ (l : Limits) (t : String) (now : ℕ) (c : Db2iConfig) (d : Option ℕ) (sys : String)
    (client grant : Option String) (m : TokenManager) where
  -- A session is refused exactly when canCreateSession says so, which is at the limit.
  pub create_session-can_create_session :
      (is_some (create_session l t now c d sys client grant m) ≡ can_create_session l m)
      × (can_create_session l m ≡ ltb (length m.sessions) l.max_sessions)
  unfolding create_session can_create_session
  create_session-can_create_session = ground arith

  -- The token that createSession returns is accepted from then on, with the caller's settings, up
  -- to and with the time of its expiry, and is refused as expired afterwards. It expires after the
  -- time asked for, but never later than tokenExpiry seconds from now.
  pub validate_token-create_session :
      (m' : TokenManager) (i : Issued) (at : ℕ)
      → t ≢ ""
      → create_session l t now c d sys client grant m ≡ some (m', i)
      → (i.token ≡ t)
        × (i.expires_at ≡ now + min (or_else d l.token_expiry) l.token_expiry * 1000)
        × ((validate_token t at m').1 ≡ (
            if leb at i.expires_at
            then valid (record {
              token = t;
              config = c;
              system = sys;
              client_id = client;
              grant_id = grant;
              created_at = now;
              expires_at = i.expires_at;
              last_used_at = at;
            })
            else invalid "Token expired"))
  unfolding create_session new_session validate_token validate_found expiry_seconds has_expired
  validate_token-create_session m' i at text e =
      let s = new_session l t now c d sys client grant in
      ground (arith, eq_iff t "", eq_iff t t, get-set t t s m.sessions)

pub revoked_invalid :
    (t : String) (at : ℕ) (m : TokenManager)
    → t ≢ ""
    → (validate_token t at (revoke_token t m).0).1 ≡ invalid "Token not found or expired"
unfolding validate_token
revoked_invalid t at m text =
    ground (arith, eq_iff t "", eq_iff t t, sessions-revoke_token t m, get-delete t t m.sessions)

-- A revoked token is not accepted again, and no other token is touched.
pub validate_token-revoke_token :
    (t j : String) (at : ℕ) (m : TokenManager)
    → t ≢ ""
    → j ≢ t
    → ((validate_token t at (revoke_token t m).0).1 ≡ invalid "Token not found or expired")
      × (get_session j (revoke_token t m).0 ≡ get_session j m)
unfolding validate_token get_session
validate_token-revoke_token t j at m text ne = (
  revoked_invalid t at m text,
  ground (arith, eq_iff t j, sessions-revoke_token t m, get-delete t j m.sessions),
)

count_sessions_lem :
    (now : ℕ) (ss : Table TokenSession) (a b : ℕ)
    → (count_sessions now (values ss) a b).1 ≡ b + length (keep (has_expired now) ss)
unfolding count_sessions keep has_expired
count_sessions_lem now [] a b = omega arith
count_sessions_lem now ((k, s) ∷ ss) a b =
    ground (arith, count_sessions_lem now ss (a + 1) b, count_sessions_lem now ss a (b + 1))

count_sessions_sum :
    (now : ℕ) (ss : List TokenSession) (a b : ℕ)
    → (count_sessions now ss a b).0 + (count_sessions now ss a b).1 ≡ a + b + length ss
unfolding count_sessions
count_sessions_sum now [] a b = omega arith
count_sessions_sum now (s ∷ ss) a b =
    ground (arith, count_sessions_sum now ss (a + 1) b, count_sessions_sum now ss a (b + 1))

-- In the statistics every session is counted once, as active or as expired, and the expired count is
-- the number of sessions that a sweep at that time collects.
pub get_stats-expired_sessions :
    (now : ℕ) (m : TokenManager)
    → ((get_stats now m).active_sessions + (get_stats now m).expired_sessions
        ≡ (get_stats now m).total_sessions)
      × ((get_stats now m).expired_sessions ≡ length (expired_sessions now m))
unfolding get_stats expired_sessions
get_stats-expired_sessions now m = (
  omega (arith, count_sessions_sum now (values m.sessions) 0 0, length-map (λ e. e.1) m.sessions),
  omega (arith, count_sessions_lem now m.sessions 0 0),
)
