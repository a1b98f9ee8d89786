-- ===== src/Lifecycle/Counts.antt =====
-- src/lifecycle.ts: what a state of the process has done.
use mcp_server_db2i.Prelude.{
  ℕ, ◌+◌, Bool, true, false, not, ◌&&◌, ◌||◌, List, [], ◌∷◌, if◌then◌else◌, ◌==◌, ◌≡◌, leb,
}
use mcp_server_db2i.Lifecycle.{
  Effect, writes_shutdown, stops_watch, writes_deadline, closes_http, closes_stdio,
  closes_stdio_pools, closes_exports, closes_audit_log, flushes_logger, exits, Phase, idle, closing,
  closing_pools, closing_exports, done, Lifecycle,
}

-- What an effect counts for.
abbrev pub is_exit : Effect → ℕ
is_exit (exits code) = 1
is_exit writes_shutdown = 0
is_exit stops_watch = 0
is_exit writes_deadline = 0
is_exit closes_http = 0
is_exit closes_stdio = 0
is_exit closes_stdio_pools = 0
is_exit closes_exports = 0
is_exit closes_audit_log = 0
is_exit flushes_logger = 0

abbrev pub is_clean_exit : Effect → ℕ
is_clean_exit (exits code) = if code == 0 then 1 else 0
is_clean_exit writes_shutdown = 0
is_clean_exit stops_watch = 0
is_clean_exit writes_deadline = 0
is_clean_exit closes_http = 0
is_clean_exit closes_stdio = 0
is_clean_exit closes_stdio_pools = 0
is_clean_exit closes_exports = 0
is_clean_exit closes_audit_log = 0
is_clean_exit flushes_logger = 0

abbrev pub is_begin : Effect → ℕ
is_begin writes_shutdown = 1
is_begin (exits code) = 0
is_begin stops_watch = 0
is_begin writes_deadline = 0
is_begin closes_http = 0
is_begin closes_stdio = 0
is_begin closes_stdio_pools = 0
is_begin closes_exports = 0
is_begin closes_audit_log = 0
is_begin flushes_logger = 0

abbrev pub is_exports : Effect → ℕ
is_exports closes_exports = 1
is_exports writes_shutdown = 0
is_exports (exits code) = 0
is_exports stops_watch = 0
is_exports writes_deadline = 0
is_exports closes_http = 0
is_exports closes_stdio = 0
is_exports closes_stdio_pools = 0
is_exports closes_audit_log = 0
is_exports flushes_logger = 0

unfoldable pub count : (Effect → ℕ) → List Effect → ℕ
count f [] = 0
count f (e ∷ es) = f e + count f es

-- How many times the exports were closed, by the phase.
abbrev pub exports_fit : Phase → Bool → ℕ → Bool
exports_fit idle exited n = n == 0
exports_fit closing exited n = n == 0
exports_fit closing_pools exited n = n == 0
exports_fit closing_exports exited n = n == 1
exports_fit done exited n = leb n 1 && exited

abbrev pub is_idle : Phase → Bool
is_idle idle = true
is_idle closing = false
is_idle closing_pools = false
is_idle closing_exports = false
is_idle done = false

-- One exit at most, once the process ends; one shutdown; a timer for a shutdown that has not ended;
-- and no clean exit before the exports are closed.
abbrev pub fits : Phase → Lifecycle → Bool
fits p s =
    count is_exit s.effects == (if s.exited then 1 else 0)
    && ((leb (count is_clean_exit s.effects) (if s.exited then 1 else 0)
          && (not s.deadline || s.running))
        && (count is_begin s.effects == (if s.running then 1 else 0)
            && ((if s.running then s.stopping else not s.stopping)
                && ((if s.running then not (is_idle p) else is_idle p && not s.exited)
                    && ((not s.running || s.exited || s.deadline)
                        && (exports_fit p s.exited (count is_exports s.effects)
                            && leb (count is_clean_exit s.effects)
                                (count is_exports s.effects)))))))

abbrev pub IsOrderly : Lifecycle → Type 0
IsOrderly s = fits s.phase s ≡ true
