-- ===== src/Pools/Runs.antt =====
-- src/db/connection.ts: the pools over whole runs of events.
use mcp_server_db2i.Prelude.{
  ℕ, ◌+◌, String, Bool, true, false, Option, some, List, [], ◌∷◌, ◌≡◌, refl, ap, inl, inr, arith,
  ◌==◌, Option-cases, filter, ltb,
}
use mcp_server_db2i.Prelude.Table.{get, set, set-IsDistinct}
use mcp_server_db2i.Prelude.Sums.{of_option, sum_by-set, occurrences-append, IsDistinct-SameKeys}
use mcp_server_db2i.Oauth.{get_elem?}
use mcp_server_db2i.Pools.{
  Owner, Pair, DbTarget, Pools, initialize_session_pool, set_session_pool_idle_timeout,
  close_session_pool, get_slot, acquire_in, resolve, start_on, start_at, start_statement,
  warm_up_on, warm_up, end_statement, all_pools, forget_owners, fail_pool, register_owner,
}
use mcp_server_db2i.Pools.Sums.{
  in_owner, all_pools-sum_by, release_in-sum_by, release_in-SameKeys, forget_owners-sum_by,
  forget_owners-SameKeys, acquire_in-in_owner,
}
use mcp_server_db2i.Pools.Accounts.{
  IsAccounted, same_pools-IsAccounted, register_owner-IsAccounted, initialize_pool-IsAccounted,
}
use mcp_server_db2i.Pools.Closings.{
  close_idle_session_pools-IsAccounted, close_key-IsAccounted, close_all_session_pools-IsAccounted,
  close_global_pool-IsAccounted, move_session_pool-IsAccounted,
}
use mcp_server_db2i.Pools.Events.{
  World, Event, initializes, registers, sets_timeout, sweeps, moves, closes, closes_all,
  closes_global, starts, ends, warms_up, fails, after_start, step, run,
}

initialize_session_pool-IsAccounted :
    (key : String) (now : ℕ) (m : Pools)
    → IsAccounted m
    → IsAccounted (initialize_session_pool key now m)
unfolding initialize_session_pool
initialize_session_pool-IsAccounted key now m v = elim (Option-cases (get key m.owners)) [
  | inr (o, found) ↦ rw (found, initialize_session_pool) v
  | inl missing ↦
      rw (missing, initialize_session_pool)
        (rw (missing, register_owner) at (register_owner-IsAccounted key "Session" now m v))
]

end_statement-IsAccounted :
    (number now : ℕ) (m : Pools) → IsAccounted m → IsAccounted (end_statement number now m)
unfolding end_statement
end_statement-IsAccounted number now m v =
    same_pools-IsAccounted m (end_statement number now m)
      (IsDistinct-SameKeys m.owners _ (release_in-SameKeys number now m.owners) v.distinct)
      (λ id. release_in-sum_by id number now m.owners) refl refl refl v

fail_pool-IsAccounted : (id : ℕ) (m : Pools) → IsAccounted m → IsAccounted (fail_pool id m)
unfolding fail_pool
fail_pool-IsAccounted id m v = record {
  distinct = IsDistinct-SameKeys m.owners _ (forget_owners-SameKeys id m.owners) v.distinct;
  once = λ j.
      let lost = filter (λ k. k == id) (all_pools m.owners) in
      let a = all_pools-sum_by j (forget_owners id m.owners) in
      let b = all_pools-sum_by j m.owners in
      let c = occurrences-append j m.forgotten lost in
      ground (arith, a, b, c, forget_owners-sum_by j id m.owners, v.once j);
}

-- An acquire creates at most one pool.
acquire_at_most_one :
    (procedure : Bool) (fresh : ℕ) (p : Pair) → ltb (acquire_in procedure fresh p).2 2 ≡ true
acquire_at_most_one false fresh p = elim (Option-cases p.query.pool) [
  | inl missing ↦ rw missing refl
  | inr (id, found) ↦ rw found refl
]
acquire_at_most_one true fresh p = elim (Option-cases p.procedure) [
  | inl missing ↦ rw missing refl
  | inr (s, found) ↦
      rw found (elim (Option-cases s.pool) [
        | inl missing ↦ rw missing refl
        | inr (id, kept) ↦ rw kept refl
      ])
]

start_on-IsAccounted :
    (t : DbTarget) (procedure : Bool) (now : ℕ) (o : Owner) (w : World)
    → get t.pool_key w.pools.owners ≡ some o
    → IsAccounted w.pools
    → IsAccounted (after_start w (start_on t procedure now o w.pools)).pools
unfolding start_on
start_on-IsAccounted t procedure now o w found v =
    let m = w.pools in
    let a = acquire_in procedure m.next_pool (get_slot t procedure o) in
    let o' : Owner = record o {
      systems = set t.system a.0 o.systems;
      active = o.active + 1;
      last_used = now;
    } in
    record {
      distinct = set-IsDistinct t.pool_key o' m.owners v.distinct;
      once = λ id.
          let b = all_pools-sum_by id (set t.pool_key o' m.owners) in
          let c = all_pools-sum_by id m.owners in
          let d = sum_by-set (in_owner id) t.pool_key o' m.owners in
          let e = ap (of_option (in_owner id)) found in
          let f = acquire_in-in_owner id m.next_pool t procedure o in
          let g = acquire_at_most_one procedure m.next_pool (get_slot t procedure o) in
          ground (arith, b, c, d, e, f, g, v.once id);
    }

warm_up_on-IsAccounted :
    (t : DbTarget) (o : Owner) (m : Pools)
    → get t.pool_key m.owners ≡ some o
    → IsAccounted m
    → IsAccounted (warm_up_on t o m)
unfolding warm_up_on
warm_up_on-IsAccounted t o m found v =
    let a = acquire_in true m.next_pool (get_slot t true o) in
    let o' : Owner = record o { systems = set t.system a.0 o.systems } in
    record {
      distinct = set-IsDistinct t.pool_key o' m.owners v.distinct;
      once = λ id.
          let b = all_pools-sum_by id (set t.pool_key o' m.owners) in
          let c = all_pools-sum_by id m.owners in
          let d = sum_by-set (in_owner id) t.pool_key o' m.owners in
          let e = ap (of_option (in_owner id)) found in
          let f = acquire_in-in_owner id m.next_pool t true o in
          let g = acquire_at_most_one true m.next_pool (get_slot t true o) in
          ground (arith, b, c, d, e, f, g, v.once id);
    }

warm_up-IsAccounted : (t : DbTarget) (m : Pools) → IsAccounted m → IsAccounted (warm_up t m)
unfolding warm_up
warm_up-IsAccounted t m v = elim (Option-cases (get t.pool_key m.owners)) [
  | inl missing ↦ rw (missing, warm_up) v
  | inr (o, found) ↦ rw (found, warm_up) (warm_up_on-IsAccounted t o m found v)
]

start_at-IsAccounted :
    (t : DbTarget) (procedure : Bool) (now : ℕ) (w : World)
    → IsAccounted w.pools
    → IsAccounted (after_start w (start_at t procedure now w.pools)).pools
unfolding start_at
start_at-IsAccounted t procedure now w v = elim (Option-cases (get t.pool_key w.pools.owners)) [
  | inl missing ↦ rw (missing, start_at) v
  | inr (o, found) ↦ rw (found, start_at) (start_on-IsAccounted t procedure now o w found v)
]

start_statement-IsAccounted :
    (target : Option DbTarget) (procedure : Bool) (now : ℕ) (w : World)
    → IsAccounted w.pools
    → IsAccounted (after_start w (start_statement target procedure now w.pools)).pools
unfolding start_statement
start_statement-IsAccounted target procedure now w v =
    elim (Option-cases (resolve target w.pools)) [
      | inl missing ↦ rw (missing, start_statement) v
      | inr (t, found) ↦ rw (found, start_statement) (start_at-IsAccounted t procedure now w v)
    ]

step-IsAccounted : (w : World) (e : Event) → IsAccounted w.pools → IsAccounted (step w e).pools
unfolding step set_session_pool_idle_timeout close_session_pool
step-IsAccounted w (initializes config system now) v =
    initialize_pool-IsAccounted config system now w.pools v
step-IsAccounted w (registers key now) v = initialize_session_pool-IsAccounted key now w.pools v
step-IsAccounted w (sets_timeout ms) v = record { distinct = v.distinct; once = v.once }
step-IsAccounted w (sweeps now) v = close_idle_session_pools-IsAccounted now w.pools v
step-IsAccounted w (moves source target) v = move_session_pool-IsAccounted source target w.pools v
step-IsAccounted w (closes key) v = close_key-IsAccounted key w.pools v
step-IsAccounted w closes_all v = close_all_session_pools-IsAccounted w.pools v
step-IsAccounted w closes_global v = close_global_pool-IsAccounted w.pools v
step-IsAccounted w (starts target procedure now) v =
    start_statement-IsAccounted target procedure now w v
step-IsAccounted w (ends i now) v = elim (Option-cases (get_elem? w.running i)) [
  | inl missing ↦ rw (missing, step) v
  | inr (number, found) ↦ rw (found, step) (end_statement-IsAccounted number now w.pools v)
]
step-IsAccounted w (warms_up t) v = warm_up-IsAccounted t w.pools v
step-IsAccounted w (fails id) v = fail_pool-IsAccounted id w.pools v

-- After every run of events, each pool that was created is behind exactly one slot of one registered
-- owner, or its close was called exactly once, or it was forgotten as failed exactly once: no pool
-- is shared by two callers, closed twice, or lost while it is open.
pub run-IsAccounted :
    (w : World) (es : List Event) → IsAccounted w.pools → IsAccounted (run w es).pools
unfolding run
run-IsAccounted w [] v = v
run-IsAccounted w (e ∷ es) v = run-IsAccounted (step w e) es (step-IsAccounted w e v)
