-- ===== src/Pools.antt =====
-- src/db/connection.ts: the connection pools of the callers. A pool is the number of its creation; an
-- Owner is an object that statements share with the map, so it has the number of its own creation.
-- What runs without waiting is one function: `start_statement` is what `run`, `openQueryCursor`,
-- `explainUnparsedStatement` and `cancelSql` do before their first await, `end_statement` what release
-- does after the statement. The drivers' work is left out: that a pool could not be created is the
-- event `fail_pool`, and `forgotten` lists the pools that a slot forgot. `closed` lists the pools that
-- were handed over to be closed: closeOwner closes them one after the other, when the owner is no
-- longer registered.
pub mod Sums
pub mod Accounts
pub mod Closings
pub mod Counts
pub mod Owners
pub mod Moves
pub mod Busy
pub mod Absent
pub mod Refusals
pub mod Runs
pub mod Events
mod Tests
use Prim.Native.String
use mcp_server_db2i.Prelude.{
  ℕ, ◌+◌, ◌-◌, String, Bool, true, false, not, ◌&&◌, ◌||◌, Option, none, some, List, [], ◌∷◌, ◌++◌,
  ltb, leb, ◌==◌, if◌then◌else◌, str_eq, is_some, length, filter, map, or_else,
}
use mcp_server_db2i.Prelude.Table.{Table, get, set, delete, has}
use mcp_server_db2i.Tokens.{Db2iConfig}

pub record PoolSlot : Type 0 where
  pub config : Db2iConfig
  pub read_only : Bool
  pub label : String
  pub pool : Option ℕ

pub record Pair : Type 0 where
  pub query : PoolSlot
  pub procedure : Option PoolSlot

pub record Owner : Type 0 where
  pub number : ℕ
  pub label : String
  pub systems : Table Pair
  pub active : ℕ
  pub last_used : ℕ

pub record DbTarget : Type 0 where
  pub pool_key : String
  pub system : String
  pub config : Db2iConfig

pub record Pools : Type 0 where
  pub owners : Table Owner
  pub global_target : Option DbTarget
  pub idle_timeout_ms : ℕ
  pub next_pool : ℕ
  pub next_owner : ℕ
  pub closed : List ℕ
  pub forgotten : List ℕ

pub data PoolError : Type 0 where
  not_initialized : PoolError
  session_not_found : String → PoolError

pub data Started : Type 0 where
  refused : PoolError → Started
  started : Pools → ℕ → ℕ → Started

-- STDIO_POOL_KEY
abbrev pub stdio_pool_key : String
stdio_pool_key = "stdio"

abbrev pub is_stdio : String → Bool
is_stdio key = str_eq key stdio_pool_key

unfoldable pub register_owner : String → String → ℕ → Pools → Pools
register_owner key label now m = if has key m.owners then m else record m {
  owners =
      set key
        (record { number = m.next_owner; label = label; systems = []; active = 0; last_used = now })
        m.owners;
  next_owner = m.next_owner + 1;
}

-- A new config applies to the slots of a system that is there.
abbrev pub with_config : Db2iConfig → Pair → Pair
with_config config p = record {
  query = record p.query { config = config };
  procedure = elim p.procedure [ none ↦ none | some s ↦ some (record s { config = config }) ];
}

abbrev pub configure_system : Db2iConfig → String → Option Pair → Owner → Owner
configure_system config system none o = o
configure_system config system (some p) o = record o {
  systems = set system (with_config config p) o.systems;
}

abbrev pub configure_owner : Db2iConfig → String → Option Owner → Table Owner → Table Owner
configure_owner config system none owners = owners
configure_owner config system (some o) owners =
    set stdio_pool_key (configure_system config system (get system o.systems) o) owners

unfoldable pub initialize_pool : Db2iConfig → String → ℕ → Pools → Pools
unfolding register_owner
initialize_pool config system now m =
    let r = register_owner stdio_pool_key "Global" now m in
    record r {
      global_target = some (record { pool_key = stdio_pool_key; system = system; config = config });
      owners = configure_owner config system (get stdio_pool_key r.owners) r.owners;
    }

unfoldable pub initialize_session_pool : String → ℕ → Pools → Pools
unfolding register_owner
initialize_session_pool key now m =
    if has key m.owners then m else register_owner key "Session" now m

unfoldable pub set_session_pool_idle_timeout : ℕ → Pools → Pools
set_session_pool_idle_timeout ms m = record m { idle_timeout_ms = ms }

-- The pools behind slots, the procedure pool of a system first.
abbrev pub pools_of_slot : Option PoolSlot → List ℕ
pools_of_slot none = []
pools_of_slot (some s) = elim s.pool [ none ↦ [] | some id ↦ id ∷ [] ]

abbrev pub pools_of_pair : Pair → List ℕ
pools_of_pair p = pools_of_slot p.procedure ++ pools_of_slot (some p.query)

unfoldable pub pools_of : Table Pair → List ℕ
pools_of [] = []
pools_of ((_, p) ∷ ps) = pools_of_pair p ++ pools_of ps

-- The slots without their pools.
abbrev pub clear_pair : Pair → Pair
clear_pair p = record {
  query = record p.query { pool = none };
  procedure = elim p.procedure [ none ↦ none | some s ↦ some (record s { pool = none }) ];
}

unfoldable pub clear : Table Pair → Table Pair
clear [] = []
clear ((system, p) ∷ ps) = (system, clear_pair p) ∷ clear ps

-- Is the owner of a key idle past the timeout? A clock that went back makes the age 0 here, which is
-- below every timeout, as the negative age of the source.
abbrev pub is_idle : ℕ → ℕ → String → Owner → Bool
is_idle timeout now key o =
    not (is_stdio key || (ltb 0 o.active || ltb (now - o.last_used) timeout))

-- The loop of closeIdleSessionPools: the owners without the pools that are closed, and those pools.
unfoldable pub sweep : ℕ → ℕ → Table Owner → Table Owner × List ℕ
unfolding pools_of clear
sweep timeout now [] = ([], [])
sweep timeout now ((key, o) ∷ os) =
    let (rest, ids) = sweep timeout now os in
    if is_idle timeout now key o
    then ((key, record o { systems = clear o.systems }) ∷ rest, pools_of o.systems ++ ids)
    else ((key, o) ∷ rest, ids)

unfoldable pub close_idle_session_pools : ℕ → Pools → Pools
unfolding sweep
close_idle_session_pools now m =
    if m.idle_timeout_ms == 0
    then m
    else let (owners, ids) = sweep m.idle_timeout_ms now m.owners in
      record m { owners = owners; closed = m.closed ++ ids }

abbrev pub is_nil : List ℕ → Bool
is_nil [] = true
is_nil (x ∷ xs) = false

unfoldable pub has_open_pool : Owner → Bool
unfolding pools_of
has_open_pool o = not (is_nil (pools_of o.systems))

abbrev pub is_taken : Option Owner → Bool
is_taken none = false
is_taken (some o) = ltb 0 o.active || has_open_pool o

unfoldable pub move_session_pool : String → String → Pools → Pools × Bool
unfolding has_open_pool
move_session_pool source target m = elim (get source m.owners) [
  | none ↦ (m, false)
  | some o ↦
      if is_stdio source || is_stdio target || is_taken (get target m.owners)
      then (m, false)
      else (record m { owners = set target o (delete source m.owners) }, true)
]

-- closeSessionPool and closeGlobalPool: the owner goes first, then its pools close.
unfoldable pub close_key : String → Pools → Pools
unfolding pools_of
close_key key m = elim (get key m.owners) [
  | none ↦ m
  | some o ↦ record m { owners = delete key m.owners; closed = m.closed ++ pools_of o.systems }
]

unfoldable pub close_session_pool : String → Pools → Pools
unfolding close_key
close_session_pool key m = close_key key m

unfoldable pub close_keys : List String → Pools → Pools
unfolding close_session_pool
close_keys [] m = m
close_keys (key ∷ ks) m = close_keys ks (close_session_pool key m)

abbrev pub session_keys : Table Owner → List String
session_keys owners = filter (λ k. not (is_stdio k)) (map (λ (e : String × Owner). e.0) owners)

unfoldable pub close_all_session_pools : Pools → Pools
unfolding close_keys
close_all_session_pools m = close_keys (session_keys m.owners) m

unfoldable pub close_global_pool : Pools → Pools
unfolding close_key
close_global_pool m = close_key stdio_pool_key (record m { global_target = none })

-- The pair of the target's system, registered on the first query to it, with the procedure slot if
-- that is asked for.
abbrev pub pair_for : DbTarget → Owner → Option Pair → Pair
pair_for t o none = record {
  query = record {
    config = t.config;
    read_only = true;
    label = String.◌++◌ o.label " connection pool";
    pool = none;
  };
  procedure = none;
}
pair_for t o (some p) = p

abbrev pub with_procedure : Owner → Pair → Pair
with_procedure o p = elim p.procedure [
  | none ↦ record p {
    procedure = some (record {
      config = p.query.config;
      read_only = false;
      label = String.◌++◌ o.label " procedure pool";
      pool = none;
    });
  }
  | some s ↦ p
]

unfoldable pub get_slot : DbTarget → Bool → Owner → Pair
get_slot t procedure o =
    let p = pair_for t o (get t.system o.systems) in if procedure then with_procedure o p else p

-- The slot with a pool, the pool, and how many pools were created.
abbrev pub acquire : ℕ → PoolSlot → PoolSlot × ℕ × ℕ
acquire fresh s = elim s.pool [
  | none ↦ (record s { pool = some fresh }, fresh, 1)
  | some id ↦ (s, id, 0)
]

-- The same for the slot of a pair that is asked for.
abbrev pub acquire_procedure : ℕ → Option PoolSlot → Pair → Pair × ℕ × ℕ
acquire_procedure fresh none p = (p, fresh, 0)
acquire_procedure fresh (some s) p =
    let (slot, id, n) = acquire fresh s in (record p { procedure = some slot }, id, n)

abbrev pub acquire_in : Bool → ℕ → Pair → Pair × ℕ × ℕ
acquire_in true fresh p = acquire_procedure fresh p.procedure p
acquire_in false fresh p =
    let (slot, id, n) = acquire fresh p.query in (record p { query = slot }, id, n)

unfoldable pub resolve : Option DbTarget → Pools → Option DbTarget
resolve none m = m.global_target
resolve (some t) m = some t

-- The statement of an owner that is registered: its slot, markActive and acquire.
unfoldable pub start_on : DbTarget → Bool → ℕ → Owner → Pools → Started
unfolding get_slot
start_on t procedure now o m =
    let (p, id, n) = acquire_in procedure m.next_pool (get_slot t procedure o) in
    started
      (record m {
        owners =
            set t.pool_key
              (record o {
                systems = set t.system p o.systems;
                active = o.active + 1;
                last_used = now;
              })
              m.owners;
        next_pool = m.next_pool + n;
      })
      o.number id

unfoldable pub start_at : DbTarget → Bool → ℕ → Pools → Started
unfolding start_on
start_at t procedure now m = elim (get t.pool_key m.owners) [
  | none ↦ refused (if is_stdio t.pool_key then not_initialized else session_not_found t.pool_key)
  | some o ↦ start_on t procedure now o m
]

unfoldable pub start_statement : Option DbTarget → Bool → ℕ → Pools → Started
unfolding resolve start_at
start_statement target procedure now m = elim (resolve target m) [
  | none ↦ refused not_initialized
  | some t ↦ start_at t procedure now m
]

-- The timer of scheduleCancelWarmUp: the pool that a cancel runs on is acquired, without a statement.
unfoldable pub warm_up_on : DbTarget → Owner → Pools → Pools
unfolding get_slot
warm_up_on t o m =
    let (p, id, n) = acquire_in true m.next_pool (get_slot t true o) in
    record m {
      owners = set t.pool_key (record o { systems = set t.system p o.systems }) m.owners;
      next_pool = m.next_pool + n;
    }

-- getSlot throws where the owner is not registered, which is caught.
unfoldable pub warm_up : DbTarget → Pools → Pools
unfolding warm_up_on
warm_up t m = elim (get t.pool_key m.owners) [ none ↦ m | some o ↦ warm_up_on t o m ]

-- The release of a statement: its owner, wherever it is registered by now.
unfoldable pub release_in : ℕ → ℕ → Table Owner → Table Owner
release_in number now [] = []
release_in number now ((key, o) ∷ os) =
    let rest = release_in number now os in
    (key, (if o.number == number then record o { active = o.active - 1; last_used = now } else o))
    ∷ rest

unfoldable pub end_statement : ℕ → ℕ → Pools → Pools
unfolding release_in
end_statement number now m = record m { owners = release_in number now m.owners }

-- A pool that could not be created is forgotten by the slot that still has it.
abbrev pub forget_slot : ℕ → PoolSlot → PoolSlot
forget_slot id s = elim s.pool [
  | none ↦ s
  | some k ↦ if k == id then record s { pool = none } else s
]

abbrev pub forget_pair : ℕ → Pair → Pair
forget_pair id p = record {
  query = forget_slot id p.query;
  procedure = elim p.procedure [ none ↦ none | some s ↦ some (forget_slot id s) ];
}

unfoldable pub forget_systems : ℕ → Table Pair → Table Pair
forget_systems id [] = []
forget_systems id ((system, p) ∷ ps) = (system, forget_pair id p) ∷ forget_systems id ps

unfoldable pub forget_owners : ℕ → Table Owner → Table Owner
unfolding forget_systems
forget_owners id [] = []
forget_owners id ((key, o) ∷ os) =
    (key, record o { systems = forget_systems id o.systems }) ∷ forget_owners id os

-- The pools behind the slots of every owner.
unfoldable pub all_pools : Table Owner → List ℕ
unfolding pools_of
all_pools [] = []
all_pools ((_, o) ∷ os) = pools_of o.systems ++ all_pools os

unfoldable pub fail_pool : ℕ → Pools → Pools
unfolding forget_owners all_pools
fail_pool id m = record m {
  owners = forget_owners id m.owners;
  forgotten = m.forgotten ++ filter (λ k. k == id) (all_pools m.owners);
}

-- hasSessionPool and getSessionPoolCount.
unfoldable pub has_session_pool : String → Pools → Bool
has_session_pool key m = not (is_stdio key) && has key m.owners

unfoldable pub get_session_pool_count : Pools → ℕ
get_session_pool_count m = length (session_keys m.owners)
