-- ===== src/Lifecycle/Runs.antt =====
-- src/lifecycle.ts: each operation on what a state has done.
use mcp_server_db2i.Prelude.{
  ℕ, Bool, true, false, not, ◌||◌, List, [], ◌∷◌, ◌++◌, if◌then◌else◌, ◌≡◌, refl, sym, subst, arith,
  inl, inr, Bool-cases,
}
use mcp_server_db2i.Lifecycle.{
  Effect, writes_shutdown, stops_watch, writes_deadline, closes_http, closes_stdio,
  closes_stdio_pools, closes_audit_log, flushes_logger, exits, Phase, idle, closing, closing_pools,
  closing_exports, done, Lifecycle, finish, start_run, shutdown, on_stdio_client_gone, closed_at,
  pools_at, exports_at, fire_deadline,
}
use mcp_server_db2i.Lifecycle.Counts.{
  is_exit, is_clean_exit, is_begin, is_exports, count, exports_fit, fits, IsOrderly,
}

pub if_true {ℓ} : {A : Type ℓ} (b : Bool) (x y : A) → b ≡ true → (if b then x else y) ≡ x
if_true b x y h = rw h refl

pub if_false {ℓ} : {A : Type ℓ} (b : Bool) (x y : A) → b ≡ false → (if b then x else y) ≡ y
if_false b x y h = rw h refl

if_either :
    (b : Bool) (x y : Lifecycle) → IsOrderly x → IsOrderly y → IsOrderly (if b then x else y)
if_either true x y h i = h
if_either false x y h i = i

-- What closes the transports counts for none of these.
count_start :
    (f : Effect → ℕ) (stdio http : Bool) (es : List Effect)
    → f closes_stdio ≡ 0
    → f closes_http ≡ 0
    → count f
        ((if stdio then closes_stdio ∷ [] else []) ++ (if http then closes_http ∷ [] else []) ++ es)
      ≡ count f es
unfolding count
count_start f true true es h i = omega (arith, h, i)
count_start f true false es h i = omega (arith, h)
count_start f false true es h i = omega (arith, i)
count_start f false false es h i = refl

started-IsOrderly :
    (s : Lifecycle)
    → IsOrderly s
    → s.running ≡ false
    → IsOrderly (start_run (record s { stopping = true; running = true }))
unfolding count
started-IsOrderly s h new =
    let es = stops_watch ∷ writes_shutdown ∷ s.effects in
    let a = count_start is_exit s.close_stdio s.close_http es refl refl in
    let b = count_start is_begin s.close_stdio s.close_http es refl refl in
    let c = count_start is_exports s.close_stdio s.close_http es refl refl in
    let d = count_start is_clean_exit s.close_stdio s.close_http es refl refl in
    ground (arith, a, b, c, d, h, new)

pub shutdown-IsOrderly : (s : Lifecycle) → IsOrderly s → IsOrderly (shutdown s)
unfolding shutdown
shutdown-IsOrderly s h = elim (Bool-cases s.running) [
  | inl old ↦ let e : shutdown s ≡ s = if_true s.running _ _ old in subst IsOrderly (sym e) h
  | inr new ↦
      let e : shutdown s ≡ start_run (record s { stopping = true; running = true }) =
        if_false s.running _ _ new in
      subst IsOrderly (sym e) (started-IsOrderly s h new)
]

pub gone-IsOrderly : (s : Lifecycle) → IsOrderly s → IsOrderly (on_stdio_client_gone s)
unfolding on_stdio_client_gone count
gone-IsOrderly s h = elim (Bool-cases (s.stopping || s.stdio_gone)) [
  | inl over ↦
      let e : on_stdio_client_gone s ≡ s = if_true (s.stopping || s.stdio_gone) _ _ over in
      subst IsOrderly (sym e) h
  | inr here ↦
      let there : Lifecycle = record s {
        stdio_gone = true;
        close_stdio = false;
        effects = closes_stdio_pools ∷ s.effects;
      } in
      let e : on_stdio_client_gone s ≡ (if not s.http_enabled then shutdown s else there) =
        if_false (s.stopping || s.stdio_gone) _ _ here in
      let kept : IsOrderly there = ground (arith, h) in
      subst IsOrderly (sym e)
        (if_either (not s.http_enabled) (shutdown s) there (shutdown-IsOrderly s h) kept)
]

pub closed_at-IsOrderly :
    (p : Phase) (s : Lifecycle) → fits p s ≡ true → IsOrderly s → IsOrderly (closed_at p s)
unfolding count
closed_at-IsOrderly closing s h i = ground (arith, h)
closed_at-IsOrderly idle s h i = i
closed_at-IsOrderly closing_pools s h i = i
closed_at-IsOrderly closing_exports s h i = i
closed_at-IsOrderly done s h i = i

abbrev pub exit_with : ℕ → Lifecycle → Lifecycle
exit_with code s = record s {
  exited = true;
  effects = exits code ∷ flushes_logger ∷ closes_audit_log ∷ s.effects;
}

-- An exit is orderly where it is the first, and where it is left out.
finish-IsOrderly :
    (code : ℕ) (s : Lifecycle)
    → (s.exited ≡ true → IsOrderly s)
    → (s.exited ≡ false → IsOrderly (exit_with code s))
    → IsOrderly (finish code s)
unfolding finish
finish-IsOrderly code s h i = elim (Bool-cases s.exited) [
  | inl old ↦
      let e : finish code s ≡ s = if_true s.exited _ _ old in subst IsOrderly (sym e) (h old)
  | inr new ↦
      let e : finish code s ≡ exit_with code s = if_false s.exited _ _ new in
      subst IsOrderly (sym e) (i new)
]

pub pools_at-IsOrderly :
    (failed : Bool) (p : Phase) (s : Lifecycle)
    → fits p s ≡ true
    → IsOrderly s
    → IsOrderly (pools_at failed p s)
unfolding count
pools_at-IsOrderly true closing_pools s h i =
    finish-IsOrderly 1 (record s { phase = done; deadline = false }) (λ old. ground (arith, h, old))
      (λ new. ground (arith, h, new))
pools_at-IsOrderly false closing_pools s h i = ground (arith, h)
pools_at-IsOrderly failed idle s h i = i
pools_at-IsOrderly failed closing s h i = i
pools_at-IsOrderly failed closing_exports s h i = i
pools_at-IsOrderly failed done s h i = i

pub exports_at-IsOrderly :
    (p : Phase) (s : Lifecycle) → fits p s ≡ true → IsOrderly s → IsOrderly (exports_at p s)
unfolding count
exports_at-IsOrderly closing_exports s h i =
    finish-IsOrderly 0 (record s { phase = done; deadline = false }) (λ old. ground (arith, h, old))
      (λ new. ground (arith, h, new))
exports_at-IsOrderly idle s h i = i
exports_at-IsOrderly closing s h i = i
exports_at-IsOrderly closing_pools s h i = i
exports_at-IsOrderly done s h i = i

exports_fit_late : (p : Phase) (n : ℕ) → exports_fit p false n ≡ true → exports_fit p true n ≡ true
exports_fit_late idle n h = h
exports_fit_late closing n h = h
exports_fit_late closing_pools n h = h
exports_fit_late closing_exports n h = h
exports_fit_late done n h = ground (arith, h)

late-IsOrderly :
    (s : Lifecycle)
    → IsOrderly s
    → s.exited ≡ false
    → s.deadline ≡ true
    → IsOrderly (exit_with 1 (record s { deadline = false; effects = writes_deadline ∷ s.effects }))
unfolding count
late-IsOrderly s h new armed =
    ground (arith, h, new, armed, exports_fit_late s.phase (count is_exports s.effects))

pub fire_deadline-IsOrderly : (s : Lifecycle) → IsOrderly s → IsOrderly (fire_deadline s)
unfolding fire_deadline finish count
fire_deadline-IsOrderly s h = elim (Bool-cases s.deadline) [
  | inr off ↦ subst IsOrderly (sym (if_false s.deadline _ s off)) h
  | inl armed ↦
      let late : Lifecycle = record s { deadline = false; effects = writes_deadline ∷ s.effects } in
      subst IsOrderly (sym (if_true s.deadline (finish 1 late) s armed)) (
        finish-IsOrderly 1 late (λ old. ground (arith, h, old))
          (λ new. late-IsOrderly s h new armed))
]
