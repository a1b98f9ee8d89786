-- ===== src/Pools/Absent.antt =====
-- src/db/connection.ts: an operation for one key leaves another unregistered.
use mcp_server_db2i.Prelude.{
  ℕ, String, Bool, false, ◌||◌, Option, none, some, List, [], ◌∷◌, ◌≡◌, ap, inl, inr, arith, ◌==◌,
  Option-cases, Bool-cases, str_eq, eq_iff,
}
use mcp_server_db2i.Prelude.Table.{Table, get, set, delete, get-set, get-delete}
use mcp_server_db2i.Prelude.Sums.{SameKeys, has-SameKeys}
use mcp_server_db2i.Tokens.{Db2iConfig}
use mcp_server_db2i.Pools.{
  Owner, DbTarget, Pools, register_owner, configure_owner, configure_system, stdio_pool_key,
  close_idle_session_pools, is_taken, is_stdio, move_session_pool, close_key, close_session_pool,
  close_keys, resolve, start_on, start_at, start_statement, warm_up_on, warm_up,
}
use mcp_server_db2i.Pools.Sums.{sweep-SameKeys}
use mcp_server_db2i.Pools.Events.{World, after_start}

pub set_other {ℓ} :
    {V : Type ℓ} (j k : String) (v : V) (m : Table V)
    → str_eq j k ≡ false
    → get k m ≡ none
    → get k (set j v m) ≡ none
set_other j k v m other h = rw (get-set j k v m, other) h

pub delete_absent_too {ℓ} :
    {V : Type ℓ} (j k : String) (m : Table V) → get k m ≡ none → get k (delete j m) ≡ none
delete_absent_too j k m h = ground (arith, get-delete j k m)

-- A key that is registered is another.
pub found_other {ℓ} :
    {V : Type ℓ} (j k : String) (v : V) (m : Table V)
    → get k m ≡ none
    → get j m ≡ some v
    → str_eq j k ≡ false
found_other j k v m h e = elim (Bool-cases (str_eq j k)) [
  | inr other ↦ other
  | inl same ↦ absurd (
      let q : j ≡ k = (eq_iff j k).0 same in
      let r : get j m ≡ get k m = ap (λ (x : String). get x m) q in cc)
]

pub SameKeys-none :
    (k : String) (m n : Table Owner) → SameKeys m n → get k m ≡ none → get k n ≡ none
SameKeys-none k m n s h = elim (Option-cases (get k n)) [
  | inl missing ↦ missing
  | inr (o, found) ↦ absurd (ground (arith, has-SameKeys k m n s, h, found))
]

pub register_owner-none :
    (k key label : String) (now : ℕ) (m : Pools)
    → str_eq key k ≡ false
    → get k m.owners ≡ none
    → get k (register_owner key label now m).owners ≡ none
unfolding register_owner
register_owner-none k key label now m other h = elim (Option-cases (get key m.owners)) [
  | inr (o, found) ↦ rw (found, register_owner) h
  | inl missing ↦ rw (missing, register_owner) (set_other key k _ m.owners other h)
]

pub configure_owner-none :
    (k system : String) (config : Db2iConfig) (o : Option Owner) (owners : Table Owner)
    → str_eq stdio_pool_key k ≡ false
    → get k owners ≡ none
    → get k (configure_owner config system o owners) ≡ none
configure_owner-none k system config none owners other h = h
configure_owner-none k system config (some o) owners other h =
    set_other stdio_pool_key k (configure_system config system (get system o.systems) o) owners
      other h

pub close_key-none :
    (k key : String) (m : Pools) → get k m.owners ≡ none → get k (close_key key m).owners ≡ none
unfolding close_key
close_key-none k key m h = elim (Option-cases (get key m.owners)) [
  | inl missing ↦ rw (missing, close_key) h
  | inr (o, found) ↦ rw (found, close_key) (delete_absent_too key k m.owners h)
]

pub close_keys-none :
    (k : String) (ks : List String) (m : Pools)
    → get k m.owners ≡ none
    → get k (close_keys ks m).owners ≡ none
unfolding close_keys close_session_pool
close_keys-none k [] m h = h
close_keys-none k (key ∷ ks) m h = close_keys-none k ks (close_key key m) (close_key-none k key m h)

pub close_idle_session_pools-none :
    (k : String) (now : ℕ) (m : Pools)
    → get k m.owners ≡ none
    → get k (close_idle_session_pools now m).owners ≡ none
unfolding close_idle_session_pools
close_idle_session_pools-none k now m h = elim (Bool-cases (m.idle_timeout_ms == 0)) [
  | inl off ↦ rw (off, close_idle_session_pools) h
  | inr on ↦
      rw (on, close_idle_session_pools)
        (SameKeys-none k m.owners _ (sweep-SameKeys m.idle_timeout_ms now m.owners) h)
]

pub move_session_pool-none :
    (k source target : String) (m : Pools)
    → str_eq target k ≡ false
    → get k m.owners ≡ none
    → get k (move_session_pool source target m).0.owners ≡ none
unfolding move_session_pool
move_session_pool-none k source target m other h = elim (Option-cases (get source m.owners)) [
  | inl missing ↦ rw (missing, move_session_pool) h
  | inr (o, found) ↦
      elim (Bool-cases (is_stdio source || is_stdio target || is_taken (get target m.owners))) [
        | inl kept ↦ rw (found, kept, move_session_pool) h
        | inr free ↦
            rw (found, free, move_session_pool)
              (set_other target k o (delete source m.owners) other
                (delete_absent_too source k m.owners h))
      ]
]

pub start_at-none :
    (k : String) (t : DbTarget) (procedure : Bool) (now : ℕ) (w : World)
    → get k w.pools.owners ≡ none
    → get k (after_start w (start_at t procedure now w.pools)).pools.owners ≡ none
unfolding start_at start_on
start_at-none k t procedure now w h = elim (Option-cases (get t.pool_key w.pools.owners)) [
  | inl missing ↦ rw (missing, start_at) h
  | inr (o, found) ↦
      rw (found, start_at)
        (set_other t.pool_key k _ w.pools.owners (found_other t.pool_key k o w.pools.owners h found)
          h)
]

pub warm_up-none :
    (k : String) (t : DbTarget) (m : Pools)
    → get k m.owners ≡ none
    → get k (warm_up t m).owners ≡ none
unfolding warm_up warm_up_on
warm_up-none k t m h = elim (Option-cases (get t.pool_key m.owners)) [
  | inl missing ↦ rw (missing, warm_up) h
  | inr (o, found) ↦
      rw (found, warm_up)
        (set_other t.pool_key k _ m.owners (found_other t.pool_key k o m.owners h found) h)
]

pub start_statement-none :
    (k : String) (target : Option DbTarget) (procedure : Bool) (now : ℕ) (w : World)
    → get k w.pools.owners ≡ none
    → get k (after_start w (start_statement target procedure now w.pools)).pools.owners ≡ none
unfolding start_statement
start_statement-none k target procedure now w h = elim (Option-cases (resolve target w.pools)) [
  | inl missing ↦ rw (missing, start_statement) h
  | inr (t, found) ↦ rw (found, start_statement) (start_at-none k t procedure now w h)
]
