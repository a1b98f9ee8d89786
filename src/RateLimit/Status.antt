-- ===== src/RateLimit/Status.antt =====
-- src/utils/rateLimiter.ts: what getStatus says, against what the next checkLimit answers.
use mcp_server_db2i.Prelude.{
  ℕ, ◌+◌, String, Bool, true, false, ◌&&◌, ◌||◌, Option, none, some, ◌≡◌, arith, if◌then◌else◌,
  ◌==◌,
}
use mcp_server_db2i.Prelude.Table.{get}
use mcp_server_db2i.RateLimit.{
  RateLimitConfig, WindowData, RateLimiter, is_over, current_window, count_request, check_limit,
  open_result, get_status, window_status,
}

-- No window runs for the key.
abbrev pub is_idle : RateLimitConfig → ℕ → Option WindowData → Bool
is_idle c now none = true
is_idle c now (some w) = is_over c now w

module _ (k : String) (now : ℕ) (r : RateLimiter) where
  -- An enabled limiter's status says `allowed` exactly when the next check at that time is allowed,
  -- or when the limit is zero and no window runs; and the room that it reports is what is left after
  -- the check, plus the request itself if it is let through.
  pub get_status-check_limit :
      r.config.enabled ≡ true
      → ((get_status k now r).allowed ≡ (
          (check_limit k now r).1.allowed
          || (r.config.max_requests == 0 && is_idle r.config now (get k r.windows))))
        × ((get_status k now r).remaining
            ≡ (check_limit k now r).1.remaining
              + (if (check_limit k now r).1.allowed then 1 else 0))
  unfolding check_limit count_request current_window is_over get_status window_status open_result
  get_status-check_limit on = ground arith

  -- With a limit of zero requests and no running window, the status says `allowed` and the check
  -- refuses.
  pub get_status_zero :
      r.config.enabled ≡ true
      → r.config.max_requests ≡ 0
      → is_idle r.config now (get k r.windows) ≡ true
      → ((get_status k now r).allowed ≡ true) × ((check_limit k now r).1.allowed ≡ false)
  unfolding check_limit count_request current_window is_over get_status window_status open_result
  get_status_zero on zero idle = ground arith
