-- ===== src/RateLimit/Window.antt =====
-- src/utils/rateLimiter.ts: how many requests a window lets through, and when it opens again.
use mcp_server_db2i.Prelude.{
  ℕ, ◌+◌, ◌-◌, ◌*◌, ◌≤◌, ◌<◌, String, true, false, not, Option, none, some, List, [], ◌∷◌, ◌≡◌,
  refl, sym, ap, ◌∙◌, inl, inr, arith, Bool-cases, if◌then◌else◌, ltb, str_eq, eq_iff, min,
}
use mcp_server_db2i.Prelude.Table.{
  get, IsDistinct, get-set, keep_if, get-keep, delete_all-keys_where,
}
use mcp_server_db2i.RateLimit.{
  RateLimitConfig, WindowData, RateLimiter, RateLimitResult, is_over, current_window, count_request,
  check_limit, open_result, cleanup,
}

-- A check of some key at some time.
abbrev pub Check : Type 0
Check = String × ℕ

-- How many of the checks are for the key.
unfoldable pub asked : String → List Check → ℕ
asked k [] = 0
asked k ((j, now) ∷ cs) = (if str_eq j k then 1 else 0) + asked k cs

-- How many checks of the key are answered with `allowed`, in a run of all the checks.
unfoldable pub granted : String → RateLimiter → List Check → ℕ
granted k r [] = 0
granted k r ((j, now) ∷ cs) =
    (if str_eq j k then (if (check_limit j now r).1.allowed then 1 else 0) else 0)
    + granted k (check_limit j now r).0 cs

-- All checks of the key come before a time.
abbrev pub AllBefore : String → ℕ → List Check → Type 0
AllBefore k t [] = Unit
AllBefore k t ((j, now) ∷ cs) = ((str_eq j k ≡ true) → now < t) × AllBefore k t cs

module _ (k : String) (now : ℕ) (r : RateLimiter) where
  config-check_limit : (check_limit k now r).0.config ≡ r.config
  unfolding check_limit count_request
  config-check_limit = ground arith

  -- A check of one key leaves the windows of the others as they are.
  get-check_limit_ne :
      (j : String) → str_eq k j ≡ false → get j (check_limit k now r).0.windows ≡ get j r.windows
  unfolding check_limit count_request
  get-check_limit_ne j ne = ground (
    arith,
    get-set k j (current_window r.config now (get k r.windows)) r.windows,
    get-set k j
        (record (current_window r.config now (get k r.windows)) {
          count = (current_window r.config now (get k r.windows)).count + 1;
        })
        r.windows,
  )

  -- In a running window a check is allowed, and counted, exactly below the limit.
  check_limit_running :
      (c : RateLimitConfig)
      → r.config ≡ c
      → c.enabled ≡ true
      → (w : WindowData) → get k r.windows ≡ some w
      → now < w.window_start + c.window_ms
      → ((check_limit k now r).1.allowed ≡ ltb w.count c.max_requests)
        × (get k (check_limit k now r).0.windows
            ≡ some
                (record w { count = if ltb w.count c.max_requests then w.count + 1 else w.count }))
  unfolding check_limit count_request current_window is_over
  check_limit_running c same on w found early = ground (
    arith,
    get-set k k w r.windows,
    get-set k k (record w { count = w.count + 1 }) r.windows,
    eq_iff k k,
  )

module _ (c : RateLimitConfig) (on : c.enabled ≡ true) (k : String) where
  granted_from :
      (cs : List Check) (r : RateLimiter) (w : WindowData)
      → r.config ≡ c
      → get k r.windows ≡ some w
      → AllBefore k (w.window_start + c.window_ms) cs
      → w.count ≤ c.max_requests
      → granted k r cs ≡ min (asked k cs) (c.max_requests - w.count)
  unfolding granted asked
  granted_from [] r w same found early fits = omega arith
  granted_from ((j, now) ∷ cs) r w same found early fits = elim (Bool-cases (str_eq j k)) [
    | inr other ↦
        let rest =
          granted_from cs (check_limit j now r).0 w (config-check_limit j now r ∙ same)
            (get-check_limit_ne j now r k other ∙ found) early.1 fits in
        rw other (omega arith)
    | inl mine ↦
        let e : j ≡ k = (eq_iff j k).0 mine in
        let w' : WindowData = record w {
          count = if ltb w.count c.max_requests then w.count + 1 else w.count;
        } in
        let here = check_limit_running j now r c same on w (rw e found) (early.0 mine) in
        let rest =
          granted_from cs (check_limit j now r).0 w' (config-check_limit j now r ∙ same)
            (rw (← e) here.1) early.1 (ground arith) in
        rw (mine, here.0) (ground arith)
  ]

-- While the window of a key runs, an enabled limiter lets through exactly as many of the requests
-- of that key as there is room for below the limit, however the requests of other keys are mixed in.
pub granted_in_window :
    (k : String) (cs : List Check) (r : RateLimiter) (w : WindowData)
    → r.config.enabled ≡ true
    → get k r.windows ≡ some w
    → AllBefore k (w.window_start + r.config.window_ms) cs
    → w.count ≤ r.config.max_requests
    → granted k r cs ≡ min (asked k cs) (r.config.max_requests - w.count)
granted_in_window k cs r w on = granted_from r.config on k cs r w refl

module _ (k : String) (now : ℕ) (r : RateLimiter) where
  -- A refused request leaves its window stored, and the answer's time covers what is left of it.
  refused_window :
      (check_limit k now r).1.allowed ≡ false
      → (r.config.enabled ≡ true)
        × (get k (check_limit k now r).0.windows
            ≡ some (current_window r.config now (get k r.windows)))
        × ((current_window r.config now (get k r.windows)).window_start + r.config.window_ms
            ≤ now + (check_limit k now r).1.retry_after_seconds * 1000)
  unfolding check_limit count_request open_result
  refused_window refused =
      ground
        (arith, get-set k k (current_window r.config now (get k r.windows)) r.windows, eq_iff k k)

  -- Once the stored window is over, a request starts a new one and is allowed.
  check_limit_over :
      (w : WindowData)
      → 0 < r.config.max_requests
      → get k r.windows ≡ some w
      → w.window_start + r.config.window_ms ≤ now
      → (check_limit k now r).1.allowed ≡ true
  unfolding check_limit count_request current_window is_over open_result
  check_limit_over w pos found over = ground arith

-- A refused request tells when to come back: the same request after the given number of seconds is
-- allowed, provided that the limit is not zero.
pub check_limit_retry :
    (k : String) (now : ℕ) (r : RateLimiter)
    → 0 < r.config.max_requests
    → (check_limit k now r).1.allowed ≡ false
    → (check_limit k
        (now + (check_limit k now r).1.retry_after_seconds * 1000)
        (check_limit k now r).0).1.allowed
      ≡ true
check_limit_retry k now r pos refused =
    let (on, stored, enough) = refused_window k now r refused in
    let same = config-check_limit k now r in
    check_limit_over k (now + (check_limit k now r).1.retry_after_seconds * 1000)
      (check_limit k now r).0 (current_window r.config now (get k r.windows)) (ground arith) stored
      (ground arith)

current_window-keep_if :
    (c : RateLimitConfig) (before now : ℕ) (o : Option WindowData)
    → before ≤ now
    → current_window c now (keep_if (λ w. not (is_over c before w)) o) ≡ current_window c now o
unfolding current_window is_over
current_window-keep_if c before now none le = refl
current_window-keep_if c before now (some w) le = ground arith

-- The answer as a function of the settings, the clock and the window that is counted in.
abbrev answer : RateLimitConfig → ℕ → WindowData → RateLimitResult
answer c now w =
    if c.enabled
    then (count_request "" now w (record { config = c; windows = []; cleaning = true })).1
    else open_result c now

check_limit-answer :
    (k : String) (now : ℕ) (r : RateLimiter)
    → (check_limit k now r).1 ≡ answer r.config now (current_window r.config now (get k r.windows))
unfolding check_limit count_request
check_limit-answer k now r = ground arith

get-cleanup :
    (k : String) (before : ℕ) (r : RateLimiter)
    → IsDistinct r.windows
    → get k (cleanup before r).windows
      ≡ keep_if (λ w. not (is_over r.config before w)) (get k r.windows)
unfolding cleanup
get-cleanup k before r d =
    ap (get k) (delete_all-keys_where (is_over r.config before) r.windows d)
    ∙ get-keep (λ w. not (is_over r.config before w)) k r.windows d

-- Sweeping expired windows changes no answer: a request is answered as if no earlier sweep had run.
pub check_limit-cleanup :
    (k : String) (before now : ℕ) (r : RateLimiter)
    → IsDistinct r.windows
    → before ≤ now
    → (check_limit k now (cleanup before r)).1 ≡ (check_limit k now r).1
unfolding cleanup
check_limit-cleanup k before now r d le =
    check_limit-answer k now (cleanup before r)
    ∙ ap (λ o. answer r.config now (current_window r.config now o)) (get-cleanup k before r d)
    ∙ ap (answer r.config now) (current_window-keep_if r.config before now (get k r.windows) le)
    ∙ sym (check_limit-answer k now r)
