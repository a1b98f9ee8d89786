-- ===== src/Pools/Counts.antt =====
-- src/db/connection.ts: the `active` of an owner and the statements that run for it.
use mcp_server_db2i.Prelude.{
  ℕ, zero, suc, ◌+◌, ◌-◌, Bool, true, ◌&&◌, some, List, [], ◌∷◌, ◌≡◌, refl, ap, inl, inr, arith,
  if◌then◌else◌, ◌==◌, Bool-cases, ltb,
}
use mcp_server_db2i.Prelude.Table.{Table, IsDistinct}
use mcp_server_db2i.Prelude.Sums.{sum_by, occurrences}
use mcp_server_db2i.Oauth.{get_elem?, remove_at}
use mcp_server_db2i.Pools.{Owner, sweep, is_idle, release_in, forget_owners}
use mcp_server_db2i.Pools.Events.{World}

-- Owners with a number, and the statements that they count.
abbrev pub is_number : ℕ → Owner → ℕ
is_number n o = if o.number == n then 1 else 0

abbrev pub active_of : ℕ → Owner → ℕ
active_of n o = if o.number == n then o.active else 0

-- At most one registered owner has a number, it counts the statements that run for it, and no
-- statement runs for a number that is not given out.
abbrev pub counts_right : ℕ → Bool → ℕ → ℕ → ℕ → Bool
counts_right n given held active running =
    (if given then ltb held 2 else held == 0 && running == 0)
    && active == (if held == 0 then 0 else running)

pub record IsCounted (w : World) : Type 0 where
  pub distinct : IsDistinct w.pools.owners
  pub right :
      (n : ℕ)
      → counts_right n
          (ltb n w.pools.next_owner)
          (sum_by (is_number n) w.pools.owners)
          (sum_by (active_of n) w.pools.owners)
          (occurrences n w.running)
        ≡ true

pub unheld_none :
    (n : ℕ) (os : Table Owner) → sum_by (is_number n) os ≡ 0 → sum_by (active_of n) os ≡ 0
unfolding sum_by
unheld_none n [] h = refl
unheld_none n ((key, o) ∷ os) h = ground (arith, unheld_none n os)

-- The sweep keeps the numbers and the counts.
pub sweep-is_number :
    (n timeout now : ℕ) (os : Table Owner)
    → sum_by (is_number n) (sweep timeout now os).0 ≡ sum_by (is_number n) os
unfolding sweep sum_by
sweep-is_number n timeout now [] = refl
sweep-is_number n timeout now ((key, o) ∷ os) = elim (Bool-cases (is_idle timeout now key o)) [
  | inl idle ↦ rw idle (ap (λ (x : ℕ). is_number n o + x) (sweep-is_number n timeout now os))
  | inr busy ↦ rw busy (ap (λ (x : ℕ). is_number n o + x) (sweep-is_number n timeout now os))
]

pub sweep-active_of :
    (n timeout now : ℕ) (os : Table Owner)
    → sum_by (active_of n) (sweep timeout now os).0 ≡ sum_by (active_of n) os
unfolding sweep sum_by
sweep-active_of n timeout now [] = refl
sweep-active_of n timeout now ((key, o) ∷ os) = elim (Bool-cases (is_idle timeout now key o)) [
  | inl idle ↦ rw idle (ap (λ (x : ℕ). active_of n o + x) (sweep-active_of n timeout now os))
  | inr busy ↦ rw busy (ap (λ (x : ℕ). active_of n o + x) (sweep-active_of n timeout now os))
]

pub forget_owners-is_number :
    (n id : ℕ) (os : Table Owner)
    → sum_by (is_number n) (forget_owners id os) ≡ sum_by (is_number n) os
unfolding forget_owners sum_by
forget_owners-is_number n id [] = refl
forget_owners-is_number n id ((key, o) ∷ os) =
    ap (λ (x : ℕ). is_number n o + x) (forget_owners-is_number n id os)

pub forget_owners-active_of :
    (n id : ℕ) (os : Table Owner)
    → sum_by (active_of n) (forget_owners id os) ≡ sum_by (active_of n) os
unfolding forget_owners sum_by
forget_owners-active_of n id [] = refl
forget_owners-active_of n id ((key, o) ∷ os) =
    ap (λ (x : ℕ). active_of n o + x) (forget_owners-active_of n id os)

pub release_in-is_number :
    (n number now : ℕ) (os : Table Owner)
    → sum_by (is_number n) (release_in number now os) ≡ sum_by (is_number n) os
unfolding release_in sum_by
release_in-is_number n number now [] = refl
release_in-is_number n number now ((key, o) ∷ os) =
    ground (arith, release_in-is_number n number now os)

-- A release lowers the count of its own owner by one, if the owner is still registered.
pub release_in-active_of :
    (n number now : ℕ) (os : Table Owner)
    → ltb (sum_by (is_number n) os) 2 ≡ true
    → sum_by (active_of n) (release_in number now os)
      ≡ (if number == n then sum_by (active_of n) os - 1 else sum_by (active_of n) os)
unfolding release_in sum_by
release_in-active_of n number now [] h = ground arith
release_in-active_of n number now ((key, o) ∷ os) h = ground (
  arith,
  release_in-active_of n number now os,
  unheld_none n os,
  unheld_none n (release_in number now os),
  release_in-is_number n number now os,
)

pub remove_at-occurrences :
    (n i number : ℕ) (xs : List ℕ)
    → get_elem? xs i ≡ some number
    → occurrences n (remove_at i xs) + (if number == n then 1 else 0) ≡ occurrences n xs
unfolding occurrences remove_at get_elem?
remove_at-occurrences n i number [] h = cc
remove_at-occurrences n zero number (x ∷ xs) h = ground arith
remove_at-occurrences n (suc i) number (x ∷ xs) h =
    omega (arith, remove_at-occurrences n i number xs h)
