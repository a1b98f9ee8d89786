-- ===== src/Pools/Accounts.antt =====
-- src/db/connection.ts: every pool is behind one slot, closed or forgotten.
use mcp_server_db2i.Prelude.{
  ℕ, ◌+◌, String, [], ◌≡◌, ◌∙◌, refl, sym, ap, inl, inr, arith, if◌then◌else◌, Option-cases, ltb,
}
use mcp_server_db2i.Prelude.Table.{get, set, IsDistinct, set-IsDistinct}
use mcp_server_db2i.Prelude.Sums.{sum_by, of_option, sum_by-set, occurrences}
use mcp_server_db2i.Tokens.{Db2iConfig}
use mcp_server_db2i.Pools.{
  Pair, Owner, Pools, pools_of, register_owner, with_config, configure_system, initialize_pool,
  stdio_pool_key, all_pools,
}
use mcp_server_db2i.Pools.Sums.{in_pair, in_owner, pools_of-sum_by, all_pools-sum_by}

-- Every pool that was created stands once: behind a slot of a registered owner, among those whose close
-- was called, or among those that were forgotten; and no other number does.
pub record IsAccounted (m : Pools) : Type 0 where
  pub distinct : IsDistinct m.owners
  pub once :
      (id : ℕ)
      → occurrences id (all_pools m.owners) + occurrences id m.closed + occurrences id m.forgotten
        ≡ (if ltb id m.next_pool then 1 else 0)

-- The same pools behind the slots, and the same lists.
pub same_pools-IsAccounted :
    (m n : Pools)
    → IsDistinct n.owners
    → ((id : ℕ) → sum_by (in_owner id) n.owners ≡ sum_by (in_owner id) m.owners)
    → n.closed ≡ m.closed
    → n.forgotten ≡ m.forgotten
    → n.next_pool ≡ m.next_pool
    → IsAccounted m
    → IsAccounted n
same_pools-IsAccounted m n d s c f p v = record {
  distinct = d;
  once = λ id.
      let a : occurrences id n.closed ≡ occurrences id m.closed = ap (occurrences id) c in
      let b : occurrences id n.forgotten ≡ occurrences id m.forgotten = ap (occurrences id) f in
      let e : occurrences id (all_pools n.owners) ≡ occurrences id (all_pools m.owners) =
        all_pools-sum_by id n.owners ∙ s id ∙ sym (all_pools-sum_by id m.owners) in
      ground (arith, a, b, e, p, v.once id);
}

-- A new owner, or the same systems under a key.
pub set_same :
    (key : String) (o : Owner) (m : Pools)
    → ((id : ℕ) → in_owner id o ≡ of_option (in_owner id) (get key m.owners))
    → (id : ℕ) → sum_by (in_owner id) (set key o m.owners) ≡ sum_by (in_owner id) m.owners
set_same key o m h id = omega (arith, h id, sum_by-set (in_owner id) key o m.owners)

pub register_owner-IsAccounted :
    (key label : String) (now : ℕ) (m : Pools)
    → IsAccounted m
    → IsAccounted (register_owner key label now m)
unfolding register_owner occurrences pools_of
register_owner-IsAccounted key label now m v = elim (Option-cases (get key m.owners)) [
  | inr (o, found) ↦ rw (found, register_owner) v
  | inl missing ↦
      let o : Owner = record {
        number = m.next_owner;
        label = label;
        systems = [];
        active = 0;
        last_used = now;
      } in
      rw (missing, register_owner)
        (same_pools-IsAccounted m
          (record m { owners = set key o m.owners; next_owner = m.next_owner + 1 })
          (set-IsDistinct key o m.owners v.distinct) (set_same key o m (λ id. rw missing refl)) refl
          refl refl v)
]

with_config_occurrences :
    (id : ℕ) (config : Db2iConfig) (p : Pair) → in_pair id (with_config config p) ≡ in_pair id p
with_config_occurrences id config p = elim (Option-cases p.procedure) [
  | inl missing ↦ rw missing refl
  | inr (s, found) ↦ rw found refl
]

configure_system-in_owner :
    (id : ℕ) (config : Db2iConfig) (system : String) (o : Owner)
    → in_owner id (configure_system config system (get system o.systems) o) ≡ in_owner id o
configure_system-in_owner id config system o = elim (Option-cases (get system o.systems)) [
  | inl missing ↦ rw missing refl
  | inr (p, found) ↦ rw found (
      omega (
        arith,
        pools_of-sum_by id (set system (with_config config p) o.systems),
        pools_of-sum_by id o.systems,
        sum_by-set (in_pair id) system (with_config config p) o.systems,
        ap (of_option (in_pair id)) found,
        with_config_occurrences id config p,
      ))
]

pub initialize_pool-IsAccounted :
    (config : Db2iConfig) (system : String) (now : ℕ) (m : Pools)
    → IsAccounted m
    → IsAccounted (initialize_pool config system now m)
unfolding initialize_pool
initialize_pool-IsAccounted config system now m v =
    let r = register_owner stdio_pool_key "Global" now m in
    let w = register_owner-IsAccounted stdio_pool_key "Global" now m v in
    elim (Option-cases (get stdio_pool_key r.owners)) [
      | inl missing ↦
          rw (missing, initialize_pool)
            (same_pools-IsAccounted r _ w.distinct (λ id. refl) refl refl refl w)
      | inr (o, found) ↦
          let o' = configure_system config system (get system o.systems) o in
          rw (found, initialize_pool)
            (same_pools-IsAccounted r _ (set-IsDistinct stdio_pool_key o' r.owners w.distinct)
              (set_same stdio_pool_key o' r (λ id.
                configure_system-in_owner id config system o
                ∙ sym (ap (of_option (in_owner id)) found)))
              refl refl refl w)
    ]
