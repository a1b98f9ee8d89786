-- ===== src/Lifecycle.antt =====
-- src/lifecycle.ts: the shutdown of the process. A step is what runs without waiting: a call, or what
-- follows a promise that settles or the deadline that fires. What the process calls is in `effects`,
-- newest first; the log lines are left out. The functions that close something are async, so that they fail
-- by a rejection; every rejection but that of `closeStdioPools` in a shutdown is caught and logged.
pub mod Counts
pub mod Runs
pub mod Clean
pub mod Ends
mod Tests
use mcp_server_db2i.Prelude.{
  ℕ, ◌+◌, Bool, true, false, not, ◌&&◌, ◌||◌, List, [], ◌∷◌, ◌++◌, if◌then◌else◌, ◌==◌,
}

pub data Effect : Type 0 where
  writes_shutdown stops_watch writes_deadline : Effect
  closes_http closes_stdio closes_stdio_pools closes_exports closes_audit_log flushes_logger :
      Effect
  exits : ℕ → Effect

-- Where `run` waits.
pub data Phase : Type 0 where
  idle closing closing_pools closing_exports done : Phase

pub record Lifecycle : Type 0 where
  pub http_enabled : Bool
  pub close_stdio : Bool
  pub close_http : Bool
  pub running : Bool
  pub stopping : Bool
  pub exited : Bool
  pub stdio_gone : Bool
  pub phase : Phase
  pub deadline : Bool
  pub effects : List Effect

unfoldable pub create_lifecycle : Bool → Lifecycle
create_lifecycle http_enabled = record {
  http_enabled = http_enabled;
  close_stdio = false;
  close_http = false;
  running = false;
  stopping = false;
  exited = false;
  stdio_gone = false;
  phase = idle;
  deadline = false;
  effects = [];
}

unfoldable pub finish : ℕ → Lifecycle → Lifecycle
finish code s = if s.exited then s else record s {
  exited = true;
  effects = exits code ∷ flushes_logger ∷ closes_audit_log ∷ s.effects;
}

-- The first part of `run`, up to its first await.
abbrev pub start_run : Lifecycle → Lifecycle
start_run s = record s {
  phase = closing;
  deadline = true;
  effects =
      (if s.close_stdio then closes_stdio ∷ [] else [])
      ++ (if s.close_http then closes_http ∷ [] else [])
      ++ stops_watch ∷ writes_shutdown ∷ s.effects;
}

unfoldable pub shutdown : Lifecycle → Lifecycle
shutdown s = if s.running then s else start_run (record s { stopping = true; running = true })

unfoldable pub on_stdio_client_gone : Lifecycle → Lifecycle
unfolding shutdown
on_stdio_client_gone s =
    if s.stopping || s.stdio_gone then s else if not s.http_enabled then shutdown s else record s {
      stdio_gone = true;
      close_stdio = false;
      effects = closes_stdio_pools ∷ s.effects;
    }

unfoldable pub set_stdio : Lifecycle → Lifecycle
set_stdio s = record s { close_stdio = true }

unfoldable pub set_http : Lifecycle → Lifecycle
set_http s = record s { close_http = true }

-- `Promise.all` has settled.
abbrev pub closed_at : Phase → Lifecycle → Lifecycle
closed_at closing s = record s { phase = closing_pools; effects = closes_stdio_pools ∷ s.effects }
closed_at idle s = s
closed_at closing_pools s = s
closed_at closing_exports s = s
closed_at done s = s

-- `closeStdioPools` has settled, with or without an error.
abbrev pub pools_at : Bool → Phase → Lifecycle → Lifecycle
pools_at true closing_pools s = finish 1 (record s { phase = done; deadline = false })
pools_at false closing_pools s = record s {
  phase = closing_exports;
  effects = closes_exports ∷ s.effects;
}
pools_at failed idle s = s
pools_at failed closing s = s
pools_at failed closing_exports s = s
pools_at failed done s = s

-- `closeExportStore` has settled; a rejection is caught and logged.
abbrev pub exports_at : Phase → Lifecycle → Lifecycle
exports_at closing_exports s = finish 0 (record s { phase = done; deadline = false })
exports_at idle s = s
exports_at closing s = s
exports_at closing_pools s = s
exports_at done s = s

-- The timer fires once, unless it was cleared.
unfoldable pub fire_deadline : Lifecycle → Lifecycle
unfolding finish
fire_deadline s =
    if s.deadline
    then finish 1 (record s { deadline = false; effects = writes_deadline ∷ s.effects })
    else s

pub data Event : Type 0 where
  sets_stdio sets_http shuts_down stdio_client_gone closed exports_closed deadline_fires : Event
  pools_closed : Bool → Event

unfoldable pub step : Lifecycle → Event → Lifecycle
unfolding finish shutdown on_stdio_client_gone set_stdio set_http fire_deadline
step s sets_stdio = set_stdio s
step s sets_http = set_http s
step s shuts_down = shutdown s
step s stdio_client_gone = on_stdio_client_gone s
step s closed = closed_at s.phase s
step s (pools_closed failed) = pools_at failed s.phase s
step s exports_closed = exports_at s.phase s
step s deadline_fires = fire_deadline s

unfoldable pub run : Lifecycle → List Event → Lifecycle
unfolding step
run s [] = s
run s (e ∷ es) = run (step s e) es
