-- ===== src/Sessions/Counts.antt =====
-- src/transports/sessionManager.ts: the statistics of the sessions.
use mcp_server_db2i.Prelude.{ℕ, ◌+◌, not, [], ◌∷◌, ◌≡◌, arith, length}
use mcp_server_db2i.Prelude.Table.{Table, keep}
use mcp_server_db2i.Sessions.{McpSession, SessionManager, count_open, get_stats, is_aged}

count_open_sum :
    (now : ℕ) (m : Table McpSession) (a b : ℕ)
    → (count_open now m a b).0 + (count_open now m a b).1
      ≡ a + b + length (keep (λ s. not s.is_closing) m)
unfolding count_open keep
count_open_sum now [] a b = omega arith
count_open_sum now ((k, s) ∷ m) a b =
    let old = is_aged now s in
    ground (
      arith,
      count_open_sum now m a b,
      count_open_sum now m a (b + 1),
      count_open_sum now m (a + 1) b,
    )

-- The active and the stale sessions of the statistics are together the sessions that are open.
pub get_stats_lem :
    (now : ℕ) (m : SessionManager)
    → (get_stats now m).active_sessions + (get_stats now m).stale_sessions
      ≡ length (keep (λ s. not s.is_closing) m.sessions)
unfolding get_stats
get_stats_lem now m = omega (arith, count_open_sum now m.sessions 0 0)
