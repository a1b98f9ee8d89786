-- ===== src/Pools/Closings.antt =====
-- src/db/connection.ts: the pools of an owner that is idle, moves or goes.
use mcp_server_db2i.Prelude.{
  ℕ, ◌+◌, String, false, ◌||◌, Option, none, some, List, [], ◌∷◌, ◌++◌, ◌≡◌, refl, ap, inl, inr,
  arith, ◌==◌, Option-cases, Bool-cases, str_eq,
}
use mcp_server_db2i.Prelude.Table.{
  Table, get, set, delete, IsDistinct, set-IsDistinct, delete-IsDistinct, get-delete,
}
use mcp_server_db2i.Prelude.Sums.{
  sum_by, of_option, sum_by-set, sum_by-delete, occurrences, occurrences-append,
  IsDistinct-SameKeys,
}
use mcp_server_db2i.Pools.{
  Owner, Pools, pools_of, is_stdio, is_taken, stdio_pool_key, sweep, close_idle_session_pools,
  move_session_pool, close_key, close_session_pool, close_keys, session_keys,
  close_all_session_pools, close_global_pool,
}
use mcp_server_db2i.Pools.Sums.{
  in_owner, all_pools-sum_by, sweep-sum_by, sweep-SameKeys, has_open_pool_none,
}
use mcp_server_db2i.Pools.Accounts.{IsAccounted, same_pools-IsAccounted}

-- Some pools leave the slots and are listed as closed.
closed-IsAccounted :
    (os : Table Owner) (ids : List ℕ) (m : Pools)
    → IsDistinct os
    → ((id : ℕ) → sum_by (in_owner id) os + occurrences id ids ≡ sum_by (in_owner id) m.owners)
    → IsAccounted m
    → IsAccounted (record m { owners = os; closed = m.closed ++ ids })
closed-IsAccounted os ids m d s v = record {
  distinct = d;
  once = λ id.
      let a = all_pools-sum_by id os in
      let b = all_pools-sum_by id m.owners in
      let c = occurrences-append id m.closed ids in ground (arith, a, b, c, s id, v.once id);
}

pub close_idle_session_pools-IsAccounted :
    (now : ℕ) (m : Pools) → IsAccounted m → IsAccounted (close_idle_session_pools now m)
unfolding close_idle_session_pools
close_idle_session_pools-IsAccounted now m v = elim (Bool-cases (m.idle_timeout_ms == 0)) [
  | inl off ↦ rw (off, close_idle_session_pools) v
  | inr on ↦
      rw (on, close_idle_session_pools)
        (closed-IsAccounted (sweep m.idle_timeout_ms now m.owners).0
          (sweep m.idle_timeout_ms now m.owners).1 m
          (IsDistinct-SameKeys m.owners _ (sweep-SameKeys m.idle_timeout_ms now m.owners)
            v.distinct)
          (λ id. sweep-sum_by id m.idle_timeout_ms now m.owners) v)
]

pub close_key-IsAccounted :
    (key : String) (m : Pools) → IsAccounted m → IsAccounted (close_key key m)
unfolding close_key
close_key-IsAccounted key m v = elim (Option-cases (get key m.owners)) [
  | inl missing ↦ rw (missing, close_key) v
  | inr (o, found) ↦
      rw (found, close_key)
        (closed-IsAccounted (delete key m.owners) (pools_of o.systems) m
          (delete-IsDistinct key m.owners v.distinct)
          (λ id. omega (
            arith,
            sum_by-delete (in_owner id) key m.owners v.distinct,
            ap (of_option (in_owner id)) found,
          ))
          v)
]

close_keys-IsAccounted :
    (ks : List String) (m : Pools) → IsAccounted m → IsAccounted (close_keys ks m)
unfolding close_keys close_session_pool
close_keys-IsAccounted [] m v = v
close_keys-IsAccounted (key ∷ ks) m v =
    close_keys-IsAccounted ks (close_key key m) (close_key-IsAccounted key m v)

pub close_all_session_pools-IsAccounted :
    (m : Pools) → IsAccounted m → IsAccounted (close_all_session_pools m)
unfolding close_all_session_pools
close_all_session_pools-IsAccounted m v = close_keys-IsAccounted (session_keys m.owners) m v

pub close_global_pool-IsAccounted : (m : Pools) → IsAccounted m → IsAccounted (close_global_pool m)
unfolding close_global_pool
close_global_pool-IsAccounted m v =
    close_key-IsAccounted stdio_pool_key (record m { global_target = none })
      (record { distinct = v.distinct; once = v.once })

free_none : (id : ℕ) (o : Option Owner) → is_taken o ≡ false → of_option (in_owner id) o ≡ 0
free_none id none h = refl
free_none id (some o) h = has_open_pool_none id o (ground arith)

moved_none :
    (id : ℕ) (source target : String) (m : Table Owner)
    → is_taken (get target m) ≡ false
    → of_option (in_owner id) (get target (delete source m)) ≡ 0
moved_none id source target m h =
    rw (get-delete source target m) (elim (Bool-cases (str_eq source target)) [
      | inl same ↦ rw same refl
      | inr other ↦ rw other (free_none id (get target m) h)
    ])

-- An owner that moves to a key whose owner, if any, has no open pool.
moved-IsAccounted :
    (source target : String) (o : Owner) (m : Pools)
    → get source m.owners ≡ some o
    → is_taken (get target m.owners) ≡ false
    → IsAccounted m
    → IsAccounted (record m { owners = set target o (delete source m.owners) })
moved-IsAccounted source target o m found free v =
    same_pools-IsAccounted m (record m { owners = set target o (delete source m.owners) })
      (set-IsDistinct target o (delete source m.owners)
        (delete-IsDistinct source m.owners v.distinct))
      (λ id. omega (
        arith,
        sum_by-set (in_owner id) target o (delete source m.owners),
        sum_by-delete (in_owner id) source m.owners v.distinct,
        ap (of_option (in_owner id)) found,
        moved_none id source target m.owners free,
      ))
      refl refl refl v

pub move_session_pool-IsAccounted :
    (source target : String) (m : Pools)
    → IsAccounted m
    → IsAccounted (move_session_pool source target m).0
unfolding move_session_pool
move_session_pool-IsAccounted source target m v = elim (Option-cases (get source m.owners)) [
  | inl missing ↦ rw (missing, move_session_pool) v
  | inr (o, found) ↦
      elim (Bool-cases (is_stdio source || is_stdio target || is_taken (get target m.owners))) [
        | inl kept ↦ rw (found, kept, move_session_pool) v
        | inr free ↦
            rw (found, free, move_session_pool)
              (moved-IsAccounted source target o m found (ground (arith, free)) v)
      ]
]
