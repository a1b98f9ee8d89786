-- ===== src/Lifecycle/Clean.antt =====
-- src/lifecycle.ts: a clean exit waits for the export files.
use mcp_server_db2i.Prelude.{
  ℕ, ◌+◌, ◌≤◌, Bool, true, false, not, ◌||◌, List, [], ◌∷◌, ◌++◌, if◌then◌else◌, ◌≡◌, ◌∙◌, ◌==◌,
  refl, ap, arith, inl, inr, Bool-cases,
}
use mcp_server_db2i.Lifecycle.{
  Effect, writes_shutdown, stops_watch, writes_deadline, closes_http, closes_stdio,
  closes_stdio_pools, start_run, Phase, idle, closing, closing_pools, closing_exports, done,
  Lifecycle, finish, set_stdio, set_http, shutdown, on_stdio_client_gone, closed_at, pools_at,
  exports_at, fire_deadline, Event, sets_stdio, sets_http, shuts_down, stdio_client_gone, closed,
  exports_closed, deadline_fires, pools_closed, step, run,
}
use mcp_server_db2i.Lifecycle.Counts.{is_clean_exit, count}
use mcp_server_db2i.Lifecycle.Runs.{exit_with, if_true, if_false}

-- The event that says that `closeExportStore` has settled, with or without an error.
abbrev pub is_settled : Event → ℕ
is_settled exports_closed = 1
is_settled sets_stdio = 0
is_settled sets_http = 0
is_settled shuts_down = 0
is_settled stdio_client_gone = 0
is_settled closed = 0
is_settled deadline_fires = 0
is_settled (pools_closed failed) = 0

unfoldable pub settlements : List Event → ℕ
settlements [] = 0
settlements (e ∷ es) = is_settled e + settlements es

abbrev cleans : Lifecycle → ℕ
cleans s = count is_clean_exit s.effects

finish-cleans :
    (code : ℕ) (s : Lifecycle) → cleans (finish code s) ≤ (if code == 0 then 1 else 0) + cleans s
unfolding finish count
finish-cleans code s = elim (Bool-cases s.exited) [
  | inl old ↦
      let e : finish code s ≡ s = if_true s.exited s (exit_with code s) old in rw e (ground arith)
  | inr new ↦
      let e : finish code s ≡ exit_with code s = if_false s.exited s (exit_with code s) new in
      rw e (ground arith)
]

start-cleans :
    (stdio http : Bool) (es : List Effect)
    → count is_clean_exit
        ((if stdio then closes_stdio ∷ [] else []) ++ (if http then closes_http ∷ [] else []) ++ es)
      ≡ count is_clean_exit es
unfolding count
start-cleans true true es = ground arith
start-cleans true false es = ground arith
start-cleans false true es = ground arith
start-cleans false false es = refl

shutdown-cleans : (s : Lifecycle) → cleans (shutdown s) ≡ cleans s
unfolding shutdown count
shutdown-cleans s = elim (Bool-cases s.running) [
  | inl old ↦ ap cleans (if_true s.running s _ old)
  | inr new ↦
      let started : cleans (shutdown s)
          ≡ cleans (start_run (record s { stopping = true; running = true })) =
        ap cleans (if_false s.running s _ new) in
      let counted =
        start-cleans s.close_stdio s.close_http (stops_watch ∷ writes_shutdown ∷ s.effects) in
      omega (arith, started, counted)
]

gone-cleans : (s : Lifecycle) → cleans (on_stdio_client_gone s) ≡ cleans s
unfolding on_stdio_client_gone count
gone-cleans s = elim (Bool-cases (s.stopping || s.stdio_gone)) [
  | inl over ↦ ap cleans (if_true (s.stopping || s.stdio_gone) s _ over)
  | inr here ↦
      ap cleans (if_false (s.stopping || s.stdio_gone) s _ here)
      ∙ (elim (Bool-cases (not s.http_enabled)) [
        | inl off ↦ ap cleans (if_true (not s.http_enabled) _ _ off) ∙ shutdown-cleans s
        | inr on ↦
            let there : Lifecycle = record s {
              stdio_gone = true;
              close_stdio = false;
              effects = closes_stdio_pools ∷ s.effects;
            } in
            ap cleans (if_false (not s.http_enabled) (shutdown s) there on) ∙ (ground arith)
      ])
]

closed_at-cleans : (p : Phase) (s : Lifecycle) → cleans (closed_at p s) ≡ cleans s
unfolding count
closed_at-cleans closing s = ground arith
closed_at-cleans idle s = refl
closed_at-cleans closing_pools s = refl
closed_at-cleans closing_exports s = refl
closed_at-cleans done s = refl

pools_at-cleans : (b : Bool) (p : Phase) (s : Lifecycle) → cleans (pools_at b p s) ≤ cleans s
unfolding count
pools_at-cleans true closing_pools s =
    omega (arith, finish-cleans 1 (record s { phase = done; deadline = false }))
pools_at-cleans false closing_pools s = omega arith
pools_at-cleans b idle s = omega arith
pools_at-cleans b closing s = omega arith
pools_at-cleans b closing_exports s = omega arith
pools_at-cleans b done s = omega arith

exports_at-cleans : (p : Phase) (s : Lifecycle) → cleans (exports_at p s) ≤ 1 + cleans s
unfolding count
exports_at-cleans closing_exports s =
    omega (arith, finish-cleans 0 (record s { phase = done; deadline = false }))
exports_at-cleans idle s = omega arith
exports_at-cleans closing s = omega arith
exports_at-cleans closing_pools s = omega arith
exports_at-cleans done s = omega arith

deadline-cleans : (s : Lifecycle) → cleans (fire_deadline s) ≤ cleans s
unfolding fire_deadline count
deadline-cleans s =
    let late : Lifecycle = record s { deadline = false; effects = writes_deadline ∷ s.effects } in
    elim (Bool-cases s.deadline) [
      | inl armed ↦
          let fired : cleans (fire_deadline s) ≡ cleans (finish 1 late) =
            ap cleans (if_true s.deadline (finish 1 late) s armed) in
          omega (arith, fired, finish-cleans 1 late)
      | inr off ↦
          let kept : cleans (fire_deadline s) ≡ cleans s =
            ap cleans (if_false s.deadline (finish 1 late) s off) in
          omega (arith, kept)
    ]

step-cleans : (s : Lifecycle) (e : Event) → cleans (step s e) ≤ is_settled e + cleans s
unfolding step set_stdio set_http
step-cleans s sets_stdio = omega arith
step-cleans s sets_http = omega arith
step-cleans s shuts_down = omega (arith, shutdown-cleans s)
step-cleans s stdio_client_gone = omega (arith, gone-cleans s)
step-cleans s closed = omega (arith, closed_at-cleans s.phase s)
step-cleans s (pools_closed failed) = omega (arith, pools_at-cleans failed s.phase s)
step-cleans s exports_closed = omega (arith, exports_at-cleans s.phase s)
step-cleans s deadline_fires = omega (arith, deadline-cleans s)

pub run-cleans :
    (s : Lifecycle) (es : List Event)
    → count is_clean_exit (run s es).effects ≤ settlements es + count is_clean_exit s.effects
unfolding run settlements
run-cleans s [] = omega arith
run-cleans s (e ∷ es) = omega (arith, run-cleans (step s e) es, step-cleans s e)
