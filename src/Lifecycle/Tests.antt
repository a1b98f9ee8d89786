-- ===== src/Lifecycle/Tests.antt =====
-- src/lifecycle.ts: a shutdown at concrete events.
use mcp_server_db2i.Prelude.{true, false, List, [], ◌∷◌, ◌≡◌, ◌≤◌, refl, leb, if◌then◌else◌}
use mcp_server_db2i.Lifecycle.{
  create_lifecycle, Event, sets_stdio, shuts_down, stdio_client_gone, closed, exports_closed,
  deadline_fires, pools_closed, step, run,
}
use mcp_server_db2i.Lifecycle.Counts.{is_exit, is_begin, is_clean_exit, is_exports, count}
use mcp_server_db2i.Lifecycle.Clean.{settlements}
use mcp_server_db2i.Lifecycle.Ends.{run-exits, run-fire_deadline}

-- The client goes, and the signal comes while the pools close.
abbrev events : List Event
events = sets_stdio ∷ stdio_client_gone ∷ closed ∷ shuts_down ∷ []

abbrev ending : List Event
ending =
    sets_stdio
    ∷ stdio_client_gone
    ∷ closed
    ∷ pools_closed false
    ∷ exports_closed
    ∷ deadline_fires
    ∷ []

clean : count is_clean_exit (run (create_lifecycle false) ending).effects ≡ 1
unfolding count create_lifecycle run
clean = refl

run-exits_example :
    (count is_exit (run (create_lifecycle false) ending).effects
      ≡ (if (run (create_lifecycle false) ending).exited then 1 else 0))
    × (count is_begin (run (create_lifecycle false) ending).effects
        ≡ (if (run (create_lifecycle false) ending).running then 1 else 0))
    × (leb (count is_exports (run (create_lifecycle false) ending).effects) 1 ≡ true)
    × (leb
          (count is_clean_exit (run (create_lifecycle false) ending).effects)
          (count is_exports (run (create_lifecycle false) ending).effects)
        ≡ true)
    × (count is_clean_exit (run (create_lifecycle false) ending).effects ≤ settlements ending)
run-exits_example = run-exits false ending

run-fire_deadline_example :
    count is_exit (step (run (create_lifecycle false) events) deadline_fires).effects ≡ 1
unfolding create_lifecycle run
run-fire_deadline_example = run-fire_deadline false events refl
