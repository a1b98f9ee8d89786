-- ===== src/Pools/Owners.antt =====
-- src/db/connection.ts: the counts of running statements when owners come and go.
use mcp_server_db2i.Prelude.{
  ℕ, String, Option, none, some, List, [], ◌∷◌, ◌≡◌, refl, ap, inl, inr, arith, Option-cases,
}
use mcp_server_db2i.Prelude.Table.{get, set, delete, IsDistinct, set-IsDistinct, delete-IsDistinct}
use mcp_server_db2i.Prelude.Sums.{sum_by, of_option, sum_by-set, sum_by-delete, occurrences}
use mcp_server_db2i.Tokens.{Db2iConfig}
use mcp_server_db2i.Pools.{
  Owner, Pair, DbTarget, Pools, register_owner, configure_system, initialize_pool, stdio_pool_key,
  close_key, close_session_pool, close_keys,
}
use mcp_server_db2i.Pools.Counts.{is_number, active_of, IsCounted, unheld_none}
use mcp_server_db2i.Pools.Events.{World}

-- The same numbers and counts.
pub same_counts-IsCounted :
    (w u : World)
    → IsDistinct u.pools.owners
    → ((n : ℕ) → sum_by (is_number n) u.pools.owners ≡ sum_by (is_number n) w.pools.owners)
    → ((n : ℕ) → sum_by (active_of n) u.pools.owners ≡ sum_by (active_of n) w.pools.owners)
    → u.running ≡ w.running
    → u.pools.next_owner ≡ w.pools.next_owner
    → IsCounted w
    → IsCounted u
same_counts-IsCounted w u d s a r p v = record {
  distinct = d;
  right = λ n.
      let e : occurrences n u.running ≡ occurrences n w.running = ap (occurrences n) r in
      ground (arith, s n, a n, e, p, v.right n);
}

pub register_owner-IsCounted :
    (key label : String) (now : ℕ) (w : World)
    → IsCounted w
    → IsCounted (record w { pools = register_owner key label now w.pools })
unfolding register_owner
register_owner-IsCounted key label now w v =
    let m = w.pools in
    elim (Option-cases (get key m.owners)) [
      | inr (o, found) ↦
          rw (found, register_owner) (record { distinct = v.distinct; right = v.right })
      | inl missing ↦
          let o : Owner = record {
            number = m.next_owner;
            label = label;
            systems = [];
            active = 0;
            last_used = now;
          } in
          rw (missing, register_owner)
            (record {
              distinct = set-IsDistinct key o m.owners v.distinct;
              right = λ n.
                  let a = sum_by-set (is_number n) key o m.owners in
                  let b = sum_by-set (active_of n) key o m.owners in
                  let c = ap (of_option (is_number n)) missing in
                  let d = ap (of_option (active_of n)) missing in
                  ground (arith, a, b, c, d, v.right n);
            })
    ]

-- An owner under its key whose number and count stay.
pub kept_owner-IsCounted :
    (key : String) (o o' : Owner) (t : Option DbTarget) (w : World)
    → get key w.pools.owners ≡ some o
    → o'.number ≡ o.number
    → o'.active ≡ o.active
    → IsCounted w
    → IsCounted (record w {
      pools = record w.pools { owners = set key o' w.pools.owners; global_target = t };
    })
kept_owner-IsCounted key o o' t w found h i v =
    same_counts-IsCounted w _ (set-IsDistinct key o' w.pools.owners v.distinct)
      (λ n. ground (
        arith,
        h,
        sum_by-set (is_number n) key o' w.pools.owners,
        ap (of_option (is_number n)) found,
      ))
      (λ n. ground (
        arith,
        h,
        i,
        sum_by-set (active_of n) key o' w.pools.owners,
        ap (of_option (active_of n)) found,
      ))
      refl refl v

configured_number :
    (config : Db2iConfig) (system : String) (p : Option Pair) (o : Owner)
    → (configure_system config system p o).number ≡ o.number
configured_number config system none o = refl
configured_number config system (some p) o = refl

configured_active :
    (config : Db2iConfig) (system : String) (p : Option Pair) (o : Owner)
    → (configure_system config system p o).active ≡ o.active
configured_active config system none o = refl
configured_active config system (some p) o = refl

pub initialize_pool-IsCounted :
    (config : Db2iConfig) (system : String) (now : ℕ) (w : World)
    → IsCounted w
    → IsCounted (record w { pools = initialize_pool config system now w.pools })
unfolding initialize_pool
initialize_pool-IsCounted config system now w v =
    let r = register_owner stdio_pool_key "Global" now w.pools in
    let u = register_owner-IsCounted stdio_pool_key "Global" now w v in
    elim (Option-cases (get stdio_pool_key r.owners)) [
      | inl missing ↦
          rw (missing, initialize_pool) (record { distinct = u.distinct; right = u.right })
      | inr (o, found) ↦
          rw (found, initialize_pool)
            (kept_owner-IsCounted stdio_pool_key o
              (configure_system config system (get system o.systems) o) _ (record w { pools = r })
              found (configured_number config system (get system o.systems) o)
              (configured_active config system (get system o.systems) o) u)
    ]

pub close_key-IsCounted :
    (key : String) (m : Pools) (w : World)
    → IsCounted (record w { pools = m })
    → IsCounted (record w { pools = close_key key m })
unfolding close_key
close_key-IsCounted key m w v = elim (Option-cases (get key m.owners)) [
  | inl missing ↦ rw (missing, close_key) v
  | inr (o, found) ↦
      rw (found, close_key)
        (record {
          distinct = delete-IsDistinct key m.owners v.distinct;
          right = λ n.
              let a = sum_by-delete (is_number n) key m.owners v.distinct in
              let b = sum_by-delete (active_of n) key m.owners v.distinct in
              let c = ap (of_option (is_number n)) found in
              let d = ap (of_option (active_of n)) found in
              let e = unheld_none n (delete key m.owners) in
              ground (arith, a, b, c, d, e, v.right n);
        })
]

pub close_keys-IsCounted :
    (ks : List String) (m : Pools) (w : World)
    → IsCounted (record w { pools = m })
    → IsCounted (record w { pools = close_keys ks m })
unfolding close_keys close_session_pool
close_keys-IsCounted [] m w v = v
close_keys-IsCounted (key ∷ ks) m w v =
    close_keys-IsCounted ks (close_key key m) w (close_key-IsCounted key m w v)
