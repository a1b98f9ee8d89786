-- ===== src/Pools/Moves.antt =====
-- src/db/connection.ts: the counts of running statements as owners move and statements start and end.
use mcp_server_db2i.Prelude.{
  ℕ, ◌+◌, String, Bool, true, false, ◌||◌, Option, none, some, ◌≡◌, refl, ap, inl, inr, arith, ◌==◌,
  Option-cases, Bool-cases, ltb, str_eq,
}
use mcp_server_db2i.Prelude.Table.{
  Table, get, set, delete, set-IsDistinct, delete-IsDistinct, get-delete,
}
use mcp_server_db2i.Prelude.Sums.{
  sum_by, of_option, sum_by-set, sum_by-delete, occurrences, IsDistinct-SameKeys,
}
use mcp_server_db2i.Oauth.{get_elem?, remove_at}
use mcp_server_db2i.Pools.{
  Owner, DbTarget, register_owner, initialize_session_pool, close_idle_session_pools, is_taken,
  is_stdio, move_session_pool, get_slot, acquire_in, resolve, start_on, start_at, start_statement,
  warm_up_on, warm_up, end_statement,
}
use mcp_server_db2i.Pools.Sums.{sweep-SameKeys, release_in-SameKeys}
use mcp_server_db2i.Pools.Counts.{
  is_number, active_of, IsCounted, unheld_none, sweep-is_number, sweep-active_of,
  release_in-is_number, release_in-active_of, remove_at-occurrences,
}
use mcp_server_db2i.Pools.Events.{World, after_start}
use mcp_server_db2i.Pools.Owners.{same_counts-IsCounted, register_owner-IsCounted}

pub initialize_session_pool-IsCounted :
    (key : String) (now : ℕ) (w : World)
    → IsCounted w
    → IsCounted (record w { pools = initialize_session_pool key now w.pools })
unfolding initialize_session_pool
initialize_session_pool-IsCounted key now w v = elim (Option-cases (get key w.pools.owners)) [
  | inr (o, found) ↦
      rw (found, initialize_session_pool) (record { distinct = v.distinct; right = v.right })
  | inl missing ↦
      rw (missing, initialize_session_pool)
        (rw (missing, register_owner) at (register_owner-IsCounted key "Session" now w v))
]

pub close_idle_session_pools-IsCounted :
    (now : ℕ) (w : World)
    → IsCounted w
    → IsCounted (record w { pools = close_idle_session_pools now w.pools })
unfolding close_idle_session_pools
close_idle_session_pools-IsCounted now w v =
    let m = w.pools in
    elim (Bool-cases (m.idle_timeout_ms == 0)) [
      | inl off ↦
          rw (off, close_idle_session_pools) (record { distinct = v.distinct; right = v.right })
      | inr on ↦
          rw (on, close_idle_session_pools)
            (same_counts-IsCounted w _
              (IsDistinct-SameKeys m.owners _ (sweep-SameKeys m.idle_timeout_ms now m.owners)
                v.distinct)
              (λ n. sweep-is_number n m.idle_timeout_ms now m.owners)
              (λ n. sweep-active_of n m.idle_timeout_ms now m.owners) refl refl v)
    ]

free_inactive : (n : ℕ) (o : Option Owner) → is_taken o ≡ false → of_option (active_of n) o ≡ 0
free_inactive n none h = refl
free_inactive n (some o) h = ground arith

moved_inactive :
    (n : ℕ) (source target : String) (m : Table Owner)
    → is_taken (get target m) ≡ false
    → of_option (active_of n) (get target (delete source m)) ≡ 0
moved_inactive n source target m h =
    rw (get-delete source target m) (elim (Bool-cases (str_eq source target)) [
      | inl same ↦ rw same refl
      | inr other ↦ rw other (free_inactive n (get target m) h)
    ])

pub moved-IsCounted :
    (source target : String) (o : Owner) (w : World)
    → get source w.pools.owners ≡ some o
    → is_taken (get target w.pools.owners) ≡ false
    → IsCounted w
    → IsCounted (record w {
      pools = record w.pools { owners = set target o (delete source w.pools.owners) };
    })
moved-IsCounted source target o w found free v =
    let d = delete-IsDistinct source w.pools.owners v.distinct in
    let os = delete source w.pools.owners in
    record {
      distinct = set-IsDistinct target o os d;
      right = λ n.
          let a = sum_by-delete (is_number n) source w.pools.owners v.distinct in
          let b = sum_by-delete (active_of n) source w.pools.owners v.distinct in
          let c = ap (of_option (is_number n)) found in
          let e = ap (of_option (active_of n)) found in
          let f = sum_by-set (is_number n) target o os in
          let g = sum_by-set (active_of n) target o os in
          let h = unheld_none n (set target o os) in
          let i = moved_inactive n source target w.pools.owners free in
          ground (arith, a, b, c, e, f, g, h, i, v.right n);
    }

pub move_session_pool-IsCounted :
    (source target : String) (w : World)
    → IsCounted w
    → IsCounted (record w { pools = (move_session_pool source target w.pools).0 })
unfolding move_session_pool
move_session_pool-IsCounted source target w v =
    let m = w.pools in
    let same : IsCounted (record w { pools = m }) = record {
      distinct = v.distinct;
      right = v.right;
    } in
    elim (Option-cases (get source m.owners)) [
      | inl missing ↦ rw (missing, move_session_pool) same
      | inr (o, found) ↦
          elim (Bool-cases (is_stdio source || is_stdio target || is_taken (get target m.owners))) [
            | inl kept ↦ rw (found, kept, move_session_pool) same
            | inr free ↦
                rw (found, free, move_session_pool)
                  (moved-IsCounted source target o w found (ground (arith, free)) v)
          ]
    ]

pub start_on-IsCounted :
    (t : DbTarget) (procedure : Bool) (now : ℕ) (o : Owner) (w : World)
    → get t.pool_key w.pools.owners ≡ some o
    → IsCounted w
    → IsCounted (after_start w (start_on t procedure now o w.pools))
unfolding start_on occurrences
start_on-IsCounted t procedure now o w found v =
    let m = w.pools in
    let p = acquire_in procedure m.next_pool (get_slot t procedure o) in
    let o' : Owner = record o {
      systems = set t.system p.0 o.systems;
      active = o.active + 1;
      last_used = now;
    } in
    record {
      distinct = set-IsDistinct t.pool_key o' m.owners v.distinct;
      right = λ n.
          let a = sum_by-set (is_number n) t.pool_key o' m.owners in
          let b = sum_by-set (active_of n) t.pool_key o' m.owners in
          let c = ap (of_option (is_number n)) found in
          let d = ap (of_option (active_of n)) found in
          let e = sum_by-delete (is_number n) t.pool_key m.owners v.distinct in
          let f = unheld_none n (set t.pool_key o' m.owners) in
          ground (arith, a, b, c, d, e, f, v.right n);
    }

warm_up_on-IsCounted :
    (t : DbTarget) (o : Owner) (w : World)
    → get t.pool_key w.pools.owners ≡ some o
    → IsCounted w
    → IsCounted (record w { pools = warm_up_on t o w.pools })
unfolding warm_up_on
warm_up_on-IsCounted t o w found v =
    let m = w.pools in
    let p = acquire_in true m.next_pool (get_slot t true o) in
    let o' : Owner = record o { systems = set t.system p.0 o.systems } in
    record {
      distinct = set-IsDistinct t.pool_key o' m.owners v.distinct;
      right = λ n.
          let a = sum_by-set (is_number n) t.pool_key o' m.owners in
          let b = sum_by-set (active_of n) t.pool_key o' m.owners in
          let c = ap (of_option (is_number n)) found in
          let d = ap (of_option (active_of n)) found in ground (arith, a, b, c, d, v.right n);
    }

pub warm_up-IsCounted :
    (t : DbTarget) (w : World) → IsCounted w → IsCounted (record w { pools = warm_up t w.pools })
unfolding warm_up
warm_up-IsCounted t w v = elim (Option-cases (get t.pool_key w.pools.owners)) [
  | inl missing ↦ rw (missing, warm_up) (record { distinct = v.distinct; right = v.right })
  | inr (o, found) ↦ rw (found, warm_up) (warm_up_on-IsCounted t o w found v)
]

pub start_at-IsCounted :
    (t : DbTarget) (procedure : Bool) (now : ℕ) (w : World)
    → IsCounted w
    → IsCounted (after_start w (start_at t procedure now w.pools))
unfolding start_at
start_at-IsCounted t procedure now w v = elim (Option-cases (get t.pool_key w.pools.owners)) [
  | inl missing ↦ rw (missing, start_at) v
  | inr (o, found) ↦ rw (found, start_at) (start_on-IsCounted t procedure now o w found v)
]

pub start_statement-IsCounted :
    (target : Option DbTarget) (procedure : Bool) (now : ℕ) (w : World)
    → IsCounted w
    → IsCounted (after_start w (start_statement target procedure now w.pools))
unfolding start_statement
start_statement-IsCounted target procedure now w v = elim (Option-cases (resolve target w.pools)) [
  | inl missing ↦ rw (missing, start_statement) v
  | inr (t, found) ↦ rw (found, start_statement) (start_at-IsCounted t procedure now w v)
]

pub counted_few :
    (n : ℕ) (w : World) → IsCounted w → ltb (sum_by (is_number n) w.pools.owners) 2 ≡ true
counted_few n w v = ground (arith, v.right n)

pub end_statement-IsCounted :
    (i number now : ℕ) (w : World)
    → get_elem? w.running i ≡ some number
    → IsCounted w
    → IsCounted
        (record { pools = end_statement number now w.pools; running = remove_at i w.running })
unfolding end_statement
end_statement-IsCounted i number now w found v = record {
  distinct =
      IsDistinct-SameKeys w.pools.owners _ (release_in-SameKeys number now w.pools.owners)
        v.distinct;
  right = λ n.
      let a = release_in-is_number n number now w.pools.owners in
      let b = release_in-active_of n number now w.pools.owners (counted_few n w v) in
      let c = remove_at-occurrences n i number w.running found in
      ground (arith, a, b, c, v.right n);
}
