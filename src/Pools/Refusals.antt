-- ===== src/Pools/Refusals.antt =====
-- src/db/connection.ts: statements for a key that is not registered.
use mcp_server_db2i.Prelude.{
  ℕ, String, Bool, false, none, some, List, [], ◌∷◌, ◌≡◌, refl, inl, inr, arith, if◌then◌else◌,
  Option-cases, str_eq, eq_iff, any,
}
use mcp_server_db2i.Prelude.Table.{get, get-delete}
use mcp_server_db2i.Oauth.{get_elem?}
use mcp_server_db2i.Pools.{
  DbTarget, Pools, refused, not_initialized, session_not_found, register_owner, initialize_pool,
  initialize_session_pool, stdio_pool_key, set_session_pool_idle_timeout, is_stdio, close_key,
  close_session_pool, session_keys, close_all_session_pools, close_global_pool, resolve, start_at,
  start_statement, end_statement, fail_pool,
}
use mcp_server_db2i.Pools.Sums.{release_in-SameKeys, forget_owners-SameKeys}
use mcp_server_db2i.Pools.Events.{
  World, Event, initializes, registers, sets_timeout, sweeps, moves, closes, closes_all,
  closes_global, starts, ends, warms_up, fails, step, run,
}
use mcp_server_db2i.Pools.Absent.{
  SameKeys-none, register_owner-none, configure_owner-none, close_key-none, close_keys-none,
  close_idle_session_pools-none, move_session_pool-none, start_statement-none, warm_up-none,
}

-- The events that can register an owner under a key.
abbrev pub brings : String → Event → Bool
brings k (initializes config system now) = str_eq stdio_pool_key k
brings k (registers key now) = str_eq key k
brings k (moves source target) = str_eq target k
brings k (sets_timeout ms) = false
brings k (sweeps now) = false
brings k (closes key) = false
brings k closes_all = false
brings k closes_global = false
brings k (starts target procedure now) = false
brings k (ends i now) = false
brings k (warms_up target) = false
brings k (fails id) = false

step-none :
    (k : String) (w : World) (e : Event)
    → brings k e ≡ false
    → get k w.pools.owners ≡ none
    → get k (step w e).pools.owners ≡ none
unfolding step initialize_pool initialize_session_pool set_session_pool_idle_timeout
    close_session_pool close_all_session_pools close_global_pool end_statement fail_pool
step-none k w (initializes config system now) b h =
    configure_owner-none k system config _ _ b
      (register_owner-none k stdio_pool_key "Global" now w.pools b h)
step-none k w (registers key now) b h = elim (Option-cases (get key w.pools.owners)) [
  | inr (o, found) ↦ rw (found, step, initialize_session_pool) h
  | inl missing ↦
      rw (missing, step, initialize_session_pool)
        (rw (missing, register_owner) at (register_owner-none k key "Session" now w.pools b h))
]
step-none k w (sets_timeout ms) b h = h
step-none k w (sweeps now) b h = close_idle_session_pools-none k now w.pools h
step-none k w (moves source target) b h = move_session_pool-none k source target w.pools b h
step-none k w (closes key) b h = close_key-none k key w.pools h
step-none k w closes_all b h = close_keys-none k (session_keys w.pools.owners) w.pools h
step-none k w closes_global b h =
    close_key-none k stdio_pool_key (record w.pools { global_target = none }) h
step-none k w (starts target procedure now) b h = start_statement-none k target procedure now w h
step-none k w (ends i now) b h = elim (Option-cases (get_elem? w.running i)) [
  | inl missing ↦ rw (missing, step) h
  | inr (number, found) ↦
      rw (found, step)
        (SameKeys-none k w.pools.owners _ (release_in-SameKeys number now w.pools.owners) h)
]
step-none k w (warms_up t) b h = warm_up-none k t w.pools h
step-none k w (fails id) b h =
    SameKeys-none k w.pools.owners _ (forget_owners-SameKeys id w.pools.owners) h

run-none :
    (k : String) (w : World) (es : List Event)
    → any (brings k) es ≡ false
    → get k w.pools.owners ≡ none
    → get k (run w es).pools.owners ≡ none
unfolding run
run-none k w [] b h = h
run-none k w (e ∷ es) b h =
    run-none k (step w e) es (ground (arith, b)) (step-none k w e (ground (arith, b)) h)

close_key_gone : (k : String) (m : Pools) → get k (close_key k m).owners ≡ none
unfolding close_key
close_key_gone k m = elim (Option-cases (get k m.owners)) [
  | inl missing ↦ rw (missing, close_key) missing
  | inr (o, found) ↦ rw (found, close_key) (ground (arith, get-delete k k m.owners, eq_iff k k))
]

absent_start :
    (t : DbTarget) (procedure : Bool) (now : ℕ) (w : World)
    → get t.pool_key w.pools.owners ≡ none
    → (start_statement (some t) procedure now w.pools
        ≡ refused (if is_stdio t.pool_key then not_initialized else session_not_found t.pool_key))
      × (step w (starts (some t) procedure now) ≡ w)
unfolding start_statement resolve start_at step
absent_start t procedure now w h =
    (rw (h, start_statement, start_at) refl, rw (h, step, start_statement, start_at) refl)

-- After closeSessionPool of a key, and until an event registers an owner under that key, every
-- statement that targets the key is refused, with "not initialized" for the key of the global pool
-- and with "session not found" of the key for any other, and nothing changes.
pub run-start_statement-closed :
    (w : World) (es : List Event) (t : DbTarget) (procedure : Bool) (now : ℕ)
    → any (brings t.pool_key) es ≡ false
    → (start_statement (some t) procedure now (run w (closes t.pool_key ∷ es)).pools
        ≡ refused (if is_stdio t.pool_key then not_initialized else session_not_found t.pool_key))
      × (step (run w (closes t.pool_key ∷ es)) (starts (some t) procedure now)
          ≡ run w (closes t.pool_key ∷ es))
unfolding run step close_session_pool
run-start_statement-closed w es t procedure now b =
    absent_start t procedure now (run w (closes t.pool_key ∷ es))
      (run-none t.pool_key (step w (closes t.pool_key)) es b (close_key_gone t.pool_key w.pools))
