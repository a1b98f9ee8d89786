-- ===== src/Sessions/Tests.antt =====
-- src/transports/sessionManager.ts: the theorems at concrete inputs.
use mcp_server_db2i.Prelude.{true, List, [], ◌∷◌, refl, arith}
use mcp_server_db2i.Prelude.Table.{get}
use mcp_server_db2i.Sessions.{SessionManager}
use mcp_server_db2i.Sessions.Closing.{
  Event, creates, begins, ends, increments, IsOnce, AllNew, run, run-IsOnce, times,
}

abbrev nothing : SessionManager
nothing = record { sessions = []; closed = []; timer = true }

-- The second close starts while the first one waits.
abbrev events : List Event
events =
    creates "a" "server" "t" true 5
    ∷ increments "a" 6
    ∷ begins "a"
    ∷ begins "a"
    ∷ ends "a"
    ∷ begins "a"
    ∷ []

nothing-IsOnce : IsOnce nothing
unfolding times get
nothing-IsOnce id = omega arith

events-AllNew : AllNew nothing events
unfolding AllNew times get
events-AllNew = ((refl, refl), (tt, (tt, (tt, (tt, (tt, tt))))))

run-IsOnce_example : IsOnce (run nothing events)
run-IsOnce_example = run-IsOnce nothing events events-AllNew nothing-IsOnce
