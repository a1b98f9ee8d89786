-- ===== src/Pools/Sums.antt =====
-- src/db/connection.ts: where a pool stands before and after each operation, as numbers.
use mcp_server_db2i.Prelude.{
  ℕ, ◌+◌, Bool, true, false, Option, none, some, List, [], ◌∷◌, ◌++◌, ◌≡◌, ◌∙◌, refl, inl, inr,
  arith, if◌then◌else◌, ◌==◌, Option-cases, Bool-cases, filter,
}
use mcp_server_db2i.Prelude.Table.{Table, get, set}
use mcp_server_db2i.Prelude.Sums.{
  sum_by, of_option, sum_by-set, occurrences, occurrences-append, SameKeys,
}
use mcp_server_db2i.Pools.{
  PoolSlot, Pair, Owner, DbTarget, pools_of_slot, pools_of_pair, pools_of, clear, sweep, is_idle,
  is_nil, has_open_pool, all_pools, get_slot, pair_for, with_procedure, acquire, acquire_in,
  forget_slot, forget_pair, forget_systems, forget_owners, release_in,
}

-- How often a pool stands behind the slots of a pair, of the systems of an owner, and of all owners.
abbrev pub in_pair : ℕ → Pair → ℕ
in_pair id p = occurrences id (pools_of_pair p)

abbrev pub in_owner : ℕ → Owner → ℕ
in_owner id o = occurrences id (pools_of o.systems)

pub pools_of-sum_by :
    (id : ℕ) (ps : Table Pair) → occurrences id (pools_of ps) ≡ sum_by (in_pair id) ps
unfolding pools_of sum_by occurrences
pools_of-sum_by id [] = refl
pools_of-sum_by id ((_, p) ∷ ps) =
    omega (arith, occurrences-append id (pools_of_pair p) (pools_of ps), pools_of-sum_by id ps)

pub all_pools-sum_by :
    (id : ℕ) (os : Table Owner) → occurrences id (all_pools os) ≡ sum_by (in_owner id) os
unfolding all_pools sum_by occurrences
all_pools-sum_by id [] = refl
all_pools-sum_by id ((_, o) ∷ os) =
    omega (arith, occurrences-append id (pools_of o.systems) (all_pools os), all_pools-sum_by id os)

clear-none : (id : ℕ) (ps : Table Pair) → occurrences id (pools_of (clear ps)) ≡ 0
unfolding clear pools_of occurrences
clear-none id [] = refl
clear-none id ((system, p) ∷ ps) =
    let rest = clear-none id ps in
    elim (Option-cases p.procedure) [
      | inl missing ↦ rw missing rest
      | inr (s, found) ↦ rw found rest
    ]

-- The sweep takes the pools out of the slots, and lists them.
pub sweep-sum_by :
    (id timeout now : ℕ) (os : Table Owner)
    → sum_by (in_owner id) (sweep timeout now os).0 + occurrences id (sweep timeout now os).1
      ≡ sum_by (in_owner id) os
unfolding sweep sum_by occurrences
sweep-sum_by id timeout now [] = refl
sweep-sum_by id timeout now ((key, o) ∷ os) = elim (Bool-cases (is_idle timeout now key o)) [
  | inl idle ↦ rw idle (
      omega (
        arith,
        sweep-sum_by id timeout now os,
        clear-none id o.systems,
        occurrences-append id (pools_of o.systems) (sweep timeout now os).1,
      ))
  | inr busy ↦ rw busy (omega (arith, sweep-sum_by id timeout now os))
]

pub sweep-SameKeys : (timeout now : ℕ) (os : Table Owner) → SameKeys os (sweep timeout now os).0
unfolding sweep
sweep-SameKeys timeout now [] = tt
sweep-SameKeys timeout now ((key, o) ∷ os) = elim (Bool-cases (is_idle timeout now key o)) [
  | inl idle ↦ rw idle (refl, sweep-SameKeys timeout now os)
  | inr busy ↦ rw busy (refl, sweep-SameKeys timeout now os)
]

nil_none : (id : ℕ) (xs : List ℕ) → is_nil xs ≡ true → occurrences id xs ≡ 0
unfolding occurrences
nil_none id [] h = refl
nil_none id (x ∷ xs) h = cc

pub has_open_pool_none : (id : ℕ) (o : Owner) → has_open_pool o ≡ false → in_owner id o ≡ 0
unfolding has_open_pool
has_open_pool_none id o h = nil_none id (pools_of o.systems) (ground arith)

pub release_in-sum_by :
    (id number now : ℕ) (os : Table Owner)
    → sum_by (in_owner id) (release_in number now os) ≡ sum_by (in_owner id) os
unfolding release_in sum_by
release_in-sum_by id number now [] = refl
release_in-sum_by id number now ((key, o) ∷ os) = ground (arith, release_in-sum_by id number now os)

pub release_in-SameKeys :
    (number now : ℕ) (os : Table Owner) → SameKeys os (release_in number now os)
unfolding release_in
release_in-SameKeys number now [] = tt
release_in-SameKeys number now ((key, o) ∷ os) = (refl, release_in-SameKeys number now os)

occurrences-filter_append :
    (j id : ℕ) (xs ys : List ℕ)
    → occurrences j (filter (λ k. k == id) (xs ++ ys))
      ≡ occurrences j (filter (λ k. k == id) xs) + occurrences j (filter (λ k. k == id) ys)
unfolding occurrences
occurrences-filter_append j id [] ys = omega arith
occurrences-filter_append j id (x ∷ xs) ys = ground (arith, occurrences-filter_append j id xs ys)

occurrences-forget_slot :
    (j id : ℕ) (s : PoolSlot)
    → occurrences j (pools_of_slot (some (forget_slot id s)))
        + occurrences j (filter (λ k. k == id) (pools_of_slot (some s)))
      ≡ occurrences j (pools_of_slot (some s))
unfolding occurrences
occurrences-forget_slot j id s = elim (Option-cases s.pool) [
  | inl missing ↦ rw missing refl
  | inr (k, found) ↦ rw found (ground arith)
]

forget_procedure_occurrences :
    (j id : ℕ) (s : Option PoolSlot)
    → occurrences j (pools_of_slot (elim s [ none ↦ none | some s ↦ some (forget_slot id s) ]))
        + occurrences j (filter (λ k. k == id) (pools_of_slot s))
      ≡ occurrences j (pools_of_slot s)
unfolding occurrences
forget_procedure_occurrences j id none = refl
forget_procedure_occurrences j id (some s) = occurrences-forget_slot j id s

-- The slots of a pair after one pool was forgotten.
forget_pair-occurrences :
    (j id : ℕ) (p : Pair)
    → in_pair j (forget_pair id p) + occurrences j (filter (λ k. k == id) (pools_of_pair p))
      ≡ in_pair j p
unfolding occurrences
forget_pair-occurrences j id p = omega (
  arith,
  forget_procedure_occurrences j id p.procedure,
  occurrences-forget_slot j id p.query,
  occurrences-append j (pools_of_slot p.procedure) (pools_of_slot (some p.query)),
  occurrences-append j (pools_of_slot (forget_pair id p).procedure)
      (pools_of_slot (some (forget_pair id p).query)),
  occurrences-filter_append j id (pools_of_slot p.procedure) (pools_of_slot (some p.query)),
)

occurrences-forget_systems :
    (j id : ℕ) (ps : Table Pair)
    → occurrences j (pools_of (forget_systems id ps))
        + occurrences j (filter (λ k. k == id) (pools_of ps))
      ≡ occurrences j (pools_of ps)
unfolding forget_systems pools_of occurrences
occurrences-forget_systems j id [] = refl
occurrences-forget_systems j id ((system, p) ∷ ps) = omega (
  arith,
  forget_pair-occurrences j id p,
  occurrences-forget_systems j id ps,
  occurrences-filter_append j id (pools_of_pair p) (pools_of ps),
  occurrences-append j (pools_of_pair p) (pools_of ps),
  occurrences-append j (pools_of_pair (forget_pair id p)) (pools_of (forget_systems id ps)),
)

pub forget_owners-sum_by :
    (j id : ℕ) (os : Table Owner)
    → sum_by (in_owner j) (forget_owners id os)
        + occurrences j (filter (λ k. k == id) (all_pools os))
      ≡ sum_by (in_owner j) os
unfolding forget_owners sum_by all_pools occurrences
forget_owners-sum_by j id [] = refl
forget_owners-sum_by j id ((key, o) ∷ os) = omega (
  arith,
  occurrences-forget_systems j id o.systems,
  forget_owners-sum_by j id os,
  occurrences-filter_append j id (pools_of o.systems) (all_pools os),
)

pub forget_owners-SameKeys : (id : ℕ) (os : Table Owner) → SameKeys os (forget_owners id os)
unfolding forget_owners
forget_owners-SameKeys id [] = tt
forget_owners-SameKeys id ((key, o) ∷ os) = (refl, forget_owners-SameKeys id os)

occurrences-acquire :
    (j fresh : ℕ) (s : PoolSlot)
    → occurrences j (pools_of_slot (some (acquire fresh s).0))
      ≡ occurrences j (pools_of_slot (some s)) + (if fresh == j then (acquire fresh s).2 else 0)
unfolding occurrences
occurrences-acquire j fresh s = elim (Option-cases s.pool) [
  | inl missing ↦ rw missing (ground arith)
  | inr (k, found) ↦ rw found (ground arith)
]

-- A pool that is acquired is new exactly if the slot had none.
acquire_in_occurrences :
    (j fresh : ℕ) (procedure : Bool) (p : Pair)
    → in_pair j (acquire_in procedure fresh p).0
      ≡ in_pair j p + (if fresh == j then (acquire_in procedure fresh p).2 else 0)
unfolding occurrences
acquire_in_occurrences j fresh false p = omega (
  arith,
  occurrences-acquire j fresh p.query,
  occurrences-append j (pools_of_slot p.procedure) (pools_of_slot (some p.query)),
  occurrences-append j (pools_of_slot p.procedure) (pools_of_slot (some (acquire fresh p.query).0)),
)
acquire_in_occurrences j fresh true p = elim (Option-cases p.procedure) [
  | inl missing ↦ rw missing (ground arith)
  | inr (s, found) ↦ rw found (
      omega (
        arith,
        occurrences-acquire j fresh s,
        occurrences-append j (pools_of_slot (some s)) (pools_of_slot (some p.query)),
        occurrences-append j (pools_of_slot (some (acquire fresh s).0))
            (pools_of_slot (some p.query)),
      ))
]

pair_for_occurrences :
    (j : ℕ) (t : DbTarget) (o : Owner) (p : Option Pair)
    → in_pair j (pair_for t o p) ≡ of_option (in_pair j) p
unfolding occurrences
pair_for_occurrences j t o none = refl
pair_for_occurrences j t o (some p) = refl

with_procedure_occurrences :
    (j : ℕ) (t : DbTarget) (procedure : Bool) (o : Owner) (p : Pair)
    → in_pair j (if procedure then with_procedure o p else p) ≡ in_pair j p
unfolding occurrences
with_procedure_occurrences j t false o p = refl
with_procedure_occurrences j t true o p = elim (Option-cases p.procedure) [
  | inl missing ↦ rw missing refl
  | inr (s, found) ↦ rw found refl
]

get_slot_occurrences :
    (j : ℕ) (t : DbTarget) (procedure : Bool) (o : Owner)
    → in_pair j (get_slot t procedure o) ≡ of_option (in_pair j) (get t.system o.systems)
unfolding get_slot occurrences
get_slot_occurrences j t procedure o =
    with_procedure_occurrences j t procedure o (pair_for t o (get t.system o.systems))
    ∙ pair_for_occurrences j t o (get t.system o.systems)

-- The systems of an owner after a statement has its pool.
pub acquire_in-in_owner :
    (j fresh : ℕ) (t : DbTarget) (procedure : Bool) (o : Owner)
    → occurrences j
        (pools_of (set t.system (acquire_in procedure fresh (get_slot t procedure o)).0 o.systems))
      ≡ in_owner j o
        + (if fresh == j then (acquire_in procedure fresh (get_slot t procedure o)).2 else 0)
acquire_in-in_owner j fresh t procedure o =
    let p = get_slot t procedure o in
    let p' = (acquire_in procedure fresh p).0 in
    omega (
      arith,
      pools_of-sum_by j (set t.system p' o.systems),
      pools_of-sum_by j o.systems,
      sum_by-set (in_pair j) t.system p' o.systems,
      get_slot_occurrences j t procedure o,
      acquire_in_occurrences j fresh procedure p,
    )
