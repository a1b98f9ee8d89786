-- ===== src/Pools/Tests.antt =====
-- src/db/connection.ts: the pools at concrete inputs.
use mcp_server_db2i.Prelude.{
  ℕ, ◌+◌, String, Bool, true, false, Option, none, some, List, [], ◌∷◌, ◌++◌, ◌≡◌, refl, arith, ltb,
  any, ◌==◌, if◌then◌else◌,
}
use mcp_server_db2i.Prelude.Table.{Table, IsDistinct}
use mcp_server_db2i.Prelude.Sums.{occurrences}
use mcp_server_db2i.Tokens.{Db2iConfig}
use mcp_server_db2i.Pools.{
  PoolSlot, Pair, Owner, DbTarget, Pools, Started, refused, started, session_not_found,
  not_initialized, is_stdio, all_pools, start_statement, sweep,
}
use mcp_server_db2i.Pools.Accounts.{IsAccounted}
use mcp_server_db2i.Pools.Runs.{run-IsAccounted}
use mcp_server_db2i.Pools.Refusals.{run-start_statement-closed}
use mcp_server_db2i.Pools.Events.{
  World, Event, registers, sets_timeout, sweeps, moves, closes, closes_all, starts, ends, step, run,
}

abbrev db : Db2iConfig
db = record {
  hostname = "ibmi";
  port = 446;
  username = "bob";
  password = "secret";
  database = "*LOCAL";
  schema = "LIB";
  driver = "jdbc";
  jdbc_options = [];
  odbc_options = [];
  mapepire_options = none;
  query_timeout = none;
}

abbrev none_yet : World
none_yet = record {
  pools = record {
    owners = [];
    global_target = none;
    idle_timeout_ms = 0;
    next_pool = 0;
    next_owner = 0;
    closed = [];
    forgotten = [];
  };
  running = [];
}

none_yet-IsAccounted : IsAccounted none_yet.pools
unfolding IsDistinct all_pools occurrences
none_yet-IsAccounted = record { distinct = tt; once = λ id. ground arith }

abbrev target : DbTarget
target = record { pool_key = "s1"; system = "A"; config = db }

-- Two statements of one session share its pool, the one that ends leaves the other, a move, a sweep.
abbrev events : List Event
events =
    registers "s1" 1
    ∷ sets_timeout 10
    ∷ starts (some target) false 2
    ∷ starts (some target) true 3
    ∷ ends 0 5
    ∷ moves "s1" "s2"
    ∷ sweeps 100
    ∷ []

abbrev busy : Owner
busy = record {
  number = 0;
  label = "Session";
  systems =
      (
        "A",
        record {
          query = record {
            config = db;
            read_only = true;
            label = "Session connection pool";
            pool = some 0;
          };
          procedure = some (record {
            config = db;
            read_only = false;
            label = "Session procedure pool";
            pool = some 1;
          });
        },
      )
      ∷ [];
  active = 1;
  last_used = 5;
}

run-IsAccounted_example : IsAccounted (run none_yet events).pools
run-IsAccounted_example = run-IsAccounted none_yet events none_yet-IsAccounted

run-start_statement-closed_example :
    (start_statement
        (some target)
        false
        20
        (run (run none_yet events) (closes "s1" ∷ registers "s3" 9 ∷ closes_all ∷ [])).pools
      ≡ refused (session_not_found "s1"))
    × (step
          (run (run none_yet events) (closes "s1" ∷ registers "s3" 9 ∷ closes_all ∷ []))
          (starts (some target) false 20)
        ≡ run (run none_yet events) (closes "s1" ∷ registers "s3" 9 ∷ closes_all ∷ []))
run-start_statement-closed_example =
    run-start_statement-closed (run none_yet events) (registers "s3" 9 ∷ closes_all ∷ []) target
      false 20 refl
