-- ===== src/RateLimit.antt =====
-- src/utils/rateLimiter.ts: the fixed window limiter. A method takes the clock in milliseconds
-- (one reading for each call) and returns the new limiter beside its result. Logging, the texts of
-- formatError and the reading of the environment are left out.
pub mod Window
pub mod Status
mod Tests
use mcp_server_db2i.Prelude.{
  ℕ, ◌+◌, ◌-◌, ◌/◌, ◌≤◌, String, Bool, true, false, not, ◌||◌, Option, none, some, [], ltb, leb,
  if◌then◌else◌, max, length,
}
use mcp_server_db2i.Prelude.Table.{Table, get, set, delete, delete_all, keys_where}

pub record RateLimitConfig : Type 0 where
  pub window_ms : ℕ
  pub max_requests : ℕ
  pub enabled : Bool

pub record WindowData : Type 0 where
  pub count : ℕ
  pub window_start : ℕ

pub record RateLimiter : Type 0 where
  pub config : RateLimitConfig
  pub windows : Table WindowData
  pub cleaning : Bool

pub record RateLimitResult : Type 0 where
  pub allowed : Bool
  pub remaining : ℕ
  pub reset_time : ℕ
  pub retry_after_seconds : ℕ
  pub limit : ℕ
  pub window_ms : ℕ

-- The constructor starts the cleanup timer only if the limiter is enabled.
unfoldable pub init : RateLimitConfig → RateLimiter
init c = record { config = c; windows = []; cleaning = c.enabled }

-- Math.ceil((resetTime - now) / 1000), where the reset is not in the past.
abbrev pub seconds_until : ℕ → ℕ → ℕ
seconds_until reset now = (reset - now + 999) / 1000

unfoldable pub is_over : RateLimitConfig → ℕ → WindowData → Bool
is_over c now w = leb (w.window_start + c.window_ms) now

-- The answer when the limiter is disabled, and the status of a key with no running window.
unfoldable pub open_result : RateLimitConfig → ℕ → RateLimitResult
open_result c now = record {
  allowed = true;
  remaining = c.max_requests;
  reset_time = now + c.window_ms;
  retry_after_seconds = 0;
  limit = c.max_requests;
  window_ms = c.window_ms;
}

-- The window that a check counts in: the one that runs, or a new one.
unfoldable pub current_window : RateLimitConfig → ℕ → Option WindowData → WindowData
unfolding is_over
current_window c now none = record { count = 0; window_start = now }
current_window c now (some w) =
    if is_over c now w then record { count = 0; window_start = now } else w

-- The part of checkLimit after the window is chosen and stored.
unfoldable pub count_request : String → ℕ → WindowData → RateLimiter → RateLimiter × RateLimitResult
count_request key now w r =
    let c = r.config in
    let reset : ℕ = w.window_start + c.window_ms in
    let stored : RateLimiter = record r { windows = set key w r.windows } in
    let counted : WindowData = record w { count = w.count + 1 } in
    if leb c.max_requests w.count
    then (
      stored,
      record {
        allowed = false;
        remaining = 0;
        reset_time = reset;
        retry_after_seconds = seconds_until reset now;
        limit = c.max_requests;
        window_ms = c.window_ms;
      },
    )
    else (
      record r { windows = set key counted r.windows },
      record {
        allowed = true;
        remaining = c.max_requests - counted.count;
        reset_time = reset;
        retry_after_seconds = seconds_until reset now;
        limit = c.max_requests;
        window_ms = c.window_ms;
      },
    )

unfoldable pub check_limit : String → ℕ → RateLimiter → RateLimiter × RateLimitResult
unfolding current_window count_request open_result
check_limit key now r =
    if not r.config.enabled
    then (r, open_result r.config now)
    else count_request key now (current_window r.config now (get key r.windows)) r

-- The status of a key whose window was found.
unfoldable pub window_status : RateLimitConfig → ℕ → WindowData → RateLimitResult
unfolding is_over open_result
window_status c now w =
    let remaining : ℕ = c.max_requests - w.count in
    if is_over c now w then open_result c now else record {
      allowed = ltb 0 remaining;
      remaining = remaining;
      reset_time = w.window_start + c.window_ms;
      retry_after_seconds = seconds_until (w.window_start + c.window_ms) now;
      limit = c.max_requests;
      window_ms = c.window_ms;
    }

unfoldable pub get_status : String → ℕ → RateLimiter → RateLimitResult
unfolding open_result window_status
get_status key now r =
    if not r.config.enabled then open_result r.config now else (elim (get key r.windows) [
      | none ↦ open_result r.config now
      | some w ↦ window_status r.config now w
    ])

unfoldable pub reset : String → RateLimiter → RateLimiter
reset key r = record r { windows = delete key r.windows }

unfoldable pub reset_all : RateLimiter → RateLimiter
reset_all r = record r { windows = [] }

-- The loop deletes the key of every window that is over.
unfoldable pub cleanup : ℕ → RateLimiter → RateLimiter
unfolding is_over
cleanup now r = record r {
  windows = delete_all (keys_where (is_over r.config now) r.windows) r.windows;
}

unfoldable pub destroy : RateLimiter → RateLimiter
destroy r = record r { cleaning = false }
