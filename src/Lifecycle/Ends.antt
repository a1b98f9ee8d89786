-- ===== src/Lifecycle/Ends.antt =====
-- src/lifecycle.ts: the process over whole runs.
use mcp_server_db2i.Prelude.{
  ℕ, ◌≤◌, Bool, true, false, List, [], ◌∷◌, if◌then◌else◌, ◌≡◌, ◌∙◌, refl, ap, arith, inl, inr,
  Bool-cases, leb,
}
use mcp_server_db2i.Lifecycle.{
  writes_deadline, Phase, idle, closing, closing_pools, closing_exports, done, Lifecycle,
  create_lifecycle, finish, set_stdio, set_http, fire_deadline, Event, sets_stdio, sets_http,
  shuts_down, stdio_client_gone, closed, exports_closed, deadline_fires, pools_closed, step, run,
}
use mcp_server_db2i.Lifecycle.Clean.{settlements, run-cleans}
use mcp_server_db2i.Lifecycle.Counts.{
  is_exit, is_clean_exit, is_begin, is_exports, count, exports_fit, IsOrderly,
}
use mcp_server_db2i.Lifecycle.Runs.{
  exit_with, shutdown-IsOrderly, gone-IsOrderly, closed_at-IsOrderly, pools_at-IsOrderly,
  exports_at-IsOrderly, fire_deadline-IsOrderly, if_true, if_false,
}

step-IsOrderly : (s : Lifecycle) (e : Event) → IsOrderly s → IsOrderly (step s e)
unfolding step set_stdio set_http
step-IsOrderly s sets_stdio h = h
step-IsOrderly s sets_http h = h
step-IsOrderly s shuts_down h = shutdown-IsOrderly s h
step-IsOrderly s stdio_client_gone h = gone-IsOrderly s h
step-IsOrderly s closed h = closed_at-IsOrderly s.phase s h h
step-IsOrderly s (pools_closed failed) h = pools_at-IsOrderly failed s.phase s h h
step-IsOrderly s exports_closed h = exports_at-IsOrderly s.phase s h h
step-IsOrderly s deadline_fires h = fire_deadline-IsOrderly s h

run-IsOrderly : (s : Lifecycle) (es : List Event) → IsOrderly s → IsOrderly (run s es)
unfolding run
run-IsOrderly s [] h = h
run-IsOrderly s (e ∷ es) h = run-IsOrderly (step s e) es (step-IsOrderly s e h)

new-IsOrderly : (http : Bool) → IsOrderly (create_lifecycle http)
unfolding create_lifecycle count
new-IsOrderly http = refl

exports_once : (p : Phase) (exited : Bool) (n : ℕ) → exports_fit p exited n ≡ true → leb n 1 ≡ true
exports_once idle exited n h = ground (arith, h)
exports_once closing exited n h = ground (arith, h)
exports_once closing_pools exited n h = ground (arith, h)
exports_once closing_exports exited n h = ground (arith, h)
exports_once done exited n h = ground (arith, h)

orderly_exits :
    (s : Lifecycle)
    → IsOrderly s
    → (count is_exit s.effects ≡ (if s.exited then 1 else 0))
      × (count is_begin s.effects ≡ (if s.running then 1 else 0))
      × (leb (count is_exports s.effects) 1 ≡ true)
      × (leb (count is_clean_exit s.effects) (count is_exports s.effects) ≡ true)
orderly_exits s h =
    let once = exports_once s.phase s.exited (count is_exports s.effects) in
    (ground (arith, h), ground (arith, h), ground (arith, h, once), ground (arith, h))

clean_settled :
    (http : Bool) (es : List Event)
    → count is_clean_exit (run (create_lifecycle http) es).effects ≤ settlements es
unfolding create_lifecycle count
clean_settled http es = omega (arith, run-cleans (create_lifecycle http) es)

-- However signals, a client that goes away, promises that settle and the deadline follow each other,
-- the process exits at most once, and exactly once when it is marked as ended; the shutdown begins
-- at most once; closeExportStore is called at most once; and the process exits with code 0 only after
-- closeExportStore was called and its promise has settled, with or without an error.
pub run-exits :
    (http : Bool) (es : List Event)
    → (count is_exit (run (create_lifecycle http) es).effects
        ≡ (if (run (create_lifecycle http) es).exited then 1 else 0))
      × (count is_begin (run (create_lifecycle http) es).effects
          ≡ (if (run (create_lifecycle http) es).running then 1 else 0))
      × (leb (count is_exports (run (create_lifecycle http) es).effects) 1 ≡ true)
      × (leb
            (count is_clean_exit (run (create_lifecycle http) es).effects)
            (count is_exports (run (create_lifecycle http) es).effects)
          ≡ true)
      × (count is_clean_exit (run (create_lifecycle http) es).effects ≤ settlements es)
run-exits http es =
    let (exit, begun, once, called) =
      orderly_exits (run (create_lifecycle http) es)
        (run-IsOrderly (create_lifecycle http) es (new-IsOrderly http)) in
    (exit, begun, once, called, clean_settled http es)

finish_exits : (code : ℕ) (s : Lifecycle) → (finish code s).exited ≡ true
unfolding finish
finish_exits code s = elim (Bool-cases s.exited) [
  | inl old ↦ ap (λ (t : Lifecycle). t.exited) (if_true s.exited s (exit_with code s) old) ∙ old
  | inr new ↦ ap (λ (t : Lifecycle). t.exited) (if_false s.exited s (exit_with code s) new)
]

fired_exits : (s : Lifecycle) → IsOrderly s → s.running ≡ true → (fire_deadline s).exited ≡ true
unfolding fire_deadline finish
fired_exits s h on =
    let late : Lifecycle = record s { deadline = false; effects = writes_deadline ∷ s.effects } in
    elim (Bool-cases s.deadline) [
      | inl armed ↦
          ap (λ (t : Lifecycle). t.exited) (if_true s.deadline (finish 1 late) s armed)
          ∙ finish_exits 1 late
      | inr off ↦
          ap (λ (t : Lifecycle). t.exited) (if_false s.deadline (finish 1 late) s off)
          ∙ ground (arith, h, on, off)
    ]

-- Once a shutdown has begun, whatever has happened since and whichever promises never settle, the
-- process has exited, and only once, when the deadline's time has come.
pub run-fire_deadline :
    (http : Bool) (es : List Event)
    → (run (create_lifecycle http) es).running ≡ true
    → count is_exit (step (run (create_lifecycle http) es) deadline_fires).effects ≡ 1
unfolding step
run-fire_deadline http es on =
    let s = run (create_lifecycle http) es in
    let h = run-IsOrderly (create_lifecycle http) es (new-IsOrderly http) in
    let gone = fired_exits s h on in
    (orderly_exits (fire_deadline s) (fire_deadline-IsOrderly s h)).0 ∙ rw gone refl
