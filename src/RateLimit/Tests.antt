-- ===== src/RateLimit/Tests.antt =====
-- src/utils/rateLimiter.ts: the theorems at concrete inputs.
use mcp_server_db2i.Prelude.{
  ◌+◌, ◌-◌, ◌*◌, min, true, false, ◌||◌, ◌&&◌, some, List, [], ◌∷◌, ◌≡◌, refl, if◌then◌else◌, ◌==◌,
  arith,
}
use mcp_server_db2i.Prelude.Table.{get, IsDistinct}
use mcp_server_db2i.RateLimit.{
  RateLimiter, check_limit, get_status, count_request, current_window, is_over,
}
use mcp_server_db2i.RateLimit.Window.{Check, asked, granted, granted_in_window, check_limit_retry}
use mcp_server_db2i.RateLimit.Status.{is_idle, get_status-check_limit}

-- Two requests in 100 ms; one of "a" was counted at time 1000, and two of "b".
abbrev limiter : RateLimiter
limiter = record {
  config = record { window_ms = 100; max_requests = 2; enabled = true };
  windows =
      ("a", record { count = 1; window_start = 1000 })
      ∷ ("b", record { count = 2; window_start = 1000 })
      ∷ [];
  cleaning = true;
}

abbrev checks : List Check
checks = ("a", 1001) ∷ ("b", 1002) ∷ ("a", 1003) ∷ ("a", 1004) ∷ []

running : get "a" limiter.windows ≡ some (record { count = 1; window_start = 1000 })
unfolding get
running = refl

granted_in_window_example :
    granted "a" limiter checks ≡ min (asked "a" checks) (limiter.config.max_requests - 1)
granted_in_window_example =
    granted_in_window "a" checks limiter (record { count = 1; window_start = 1000 }) refl running
      ((λ h. omega arith), ((λ h. omega arith), ((λ h. omega arith), ((λ h. omega arith), tt))))
      (omega arith)

refused_now : (check_limit "b" 1050 limiter).1.allowed ≡ false
unfolding check_limit count_request current_window is_over get
refused_now = refl

check_limit_retry_example :
    (check_limit "b"
      (1050 + (check_limit "b" 1050 limiter).1.retry_after_seconds * 1000)
      (check_limit "b" 1050 limiter).0).1.allowed
    ≡ true
check_limit_retry_example = check_limit_retry "b" 1050 limiter (omega arith) refused_now

limiter-IsDistinct : IsDistinct limiter.windows
unfolding IsDistinct get
limiter-IsDistinct = (refl, (refl, tt))

get_status-check_limit_example :
    ((get_status "b" 1050 limiter).allowed ≡ (
      (check_limit "b" 1050 limiter).1.allowed
      || (limiter.config.max_requests == 0
          && is_idle limiter.config 1050 (get "b" limiter.windows))))
    × ((get_status "b" 1050 limiter).remaining
        ≡ (check_limit "b" 1050 limiter).1.remaining
          + (if (check_limit "b" 1050 limiter).1.allowed then 1 else 0))
get_status-check_limit_example = get_status-check_limit "b" 1050 limiter refl
