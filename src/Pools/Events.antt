-- ===== src/Pools/Events.antt =====
-- src/db/connection.ts: what can happen to the pools between two waits, with the statements that run.
use mcp_server_db2i.Prelude.{ℕ, String, Bool, Option, none, some, List, [], ◌∷◌}
use mcp_server_db2i.Tokens.{Db2iConfig}
use mcp_server_db2i.Oauth.{remove_at, get_elem?}
use mcp_server_db2i.Pools.{
  DbTarget, Pools, Started, refused, started, initialize_pool, initialize_session_pool,
  set_session_pool_idle_timeout, close_idle_session_pools, move_session_pool, close_session_pool,
  close_all_session_pools, close_global_pool, start_statement, end_statement, fail_pool, warm_up,
}

-- `running` has the owner's number of every statement that runs.
pub record World : Type 0 where
  pub pools : Pools
  pub running : List ℕ

pub data Event : Type 0 where
  initializes : Db2iConfig → String → ℕ → Event
  registers : String → ℕ → Event
  sets_timeout : ℕ → Event
  sweeps : ℕ → Event
  moves : String → String → Event
  closes : String → Event
  closes_all : Event
  closes_global : Event
  starts : Option DbTarget → Bool → ℕ → Event
  ends : ℕ → ℕ → Event
  warms_up : DbTarget → Event
  fails : ℕ → Event

abbrev pub after_start : World → Started → World
after_start w (refused e) = w
after_start w (started m number id) = record { pools = m; running = number ∷ w.running }

abbrev pub after_end : ℕ → ℕ → World → Option ℕ → World
after_end i now w none = w
after_end i now w (some number) = record {
  pools = end_statement number now w.pools;
  running = remove_at i w.running;
}

unfoldable pub step : World → Event → World
step w (initializes config system now) = record w {
  pools = initialize_pool config system now w.pools;
}
step w (registers key now) = record w { pools = initialize_session_pool key now w.pools }
step w (sets_timeout ms) = record w { pools = set_session_pool_idle_timeout ms w.pools }
step w (sweeps now) = record w { pools = close_idle_session_pools now w.pools }
step w (moves source target) = record w { pools = (move_session_pool source target w.pools).0 }
step w (closes key) = record w { pools = close_session_pool key w.pools }
step w closes_all = record w { pools = close_all_session_pools w.pools }
step w closes_global = record w { pools = close_global_pool w.pools }
step w (starts target procedure now) = after_start w (start_statement target procedure now w.pools)
step w (ends i now) = after_end i now w (get_elem? w.running i)
step w (warms_up target) = record w { pools = warm_up target w.pools }
step w (fails id) = record w { pools = fail_pool id w.pools }

unfoldable pub run : World → List Event → World
unfolding step
run w [] = w
run w (e ∷ es) = run (step w e) es
