-- ===== src/Prelude/Sums.antt =====
-- Sums over the values of a table, how often a number stands in a list, and tables with the same keys.
use Prim.Native.Nat.{ℕ, ◌+◌}
use Prim.Native.String.{String}
use mathlib.Core.Path.{◌≡◌, refl, sym, ◌∙◌, subst}
use mathlib.Core.Bool.{false}
use mathlib.Core.List.{List, [], ◌∷◌, ◌++◌}
use mathlib.Core.Option.{Option, none, some}
use native.Mathlib.Omega.{arith}
use text.Mathlib.TextEquality.{eq_iff}
use mcp_server_db2i.Prelude.Tests.{if◌then◌else◌, ◌==◌}
use mcp_server_db2i.Prelude.Table.{Table, get, set, delete, has, IsDistinct, delete_absent}

module _ {ℓ} {V : Type ℓ} (f : V → ℕ) where
  unfoldable pub sum_by : Table V → ℕ
  sum_by [] = 0
  sum_by ((_, v) ∷ m) = f v + sum_by m

  abbrev pub of_option : Option V → ℕ
  of_option none = 0
  of_option (some v) = f v

  pub sum_by-set :
      (k : String) (v : V) (m : Table V) → sum_by (set k v m) + of_option (get k m) ≡ sum_by m + f v
  unfolding sum_by set get
  sum_by-set k v [] = omega arith
  sum_by-set k v ((i, w) ∷ m) = ground (arith, sum_by-set k v m)

  pub sum_by-delete :
      (k : String) (m : Table V)
      → IsDistinct m
      → sum_by (delete k m) + of_option (get k m) ≡ sum_by m
  unfolding sum_by delete get IsDistinct
  sum_by-delete k [] d = omega arith
  sum_by-delete k ((i, w) ∷ m) d =
      ground (arith, eq_iff i k, sum_by-delete k m d.1, delete_absent k m)

unfoldable pub occurrences : ℕ → List ℕ → ℕ
occurrences n [] = 0
occurrences n (x ∷ xs) = (if x == n then 1 else 0) + occurrences n xs

pub occurrences-append :
    (n : ℕ) (xs ys : List ℕ) → occurrences n (xs ++ ys) ≡ occurrences n xs + occurrences n ys
unfolding occurrences
occurrences-append n [] ys = omega arith
occurrences-append n (x ∷ xs) ys = omega (arith, occurrences-append n xs ys)

-- The keys decide whether a table is distinct.
module _ {ℓ κ} {V : Type ℓ} {W : Type κ} where
  abbrev pub SameKeys : Table V → Table W → Type 0
  SameKeys [] [] = Unit
  SameKeys [] (y ∷ n) = ⊥
  SameKeys (x ∷ m) [] = ⊥
  SameKeys ((j, v) ∷ m) ((k, w) ∷ n) = (j ≡ k) × SameKeys m n

  pub has-SameKeys : (q : String) (m : Table V) (n : Table W) → SameKeys m n → has q m ≡ has q n
  unfolding get
  has-SameKeys q [] [] s = refl
  has-SameKeys q [] (_ ∷ n) s = absurd s
  has-SameKeys q (_ ∷ m) [] s = absurd s
  has-SameKeys q ((j, v) ∷ m) ((k, w) ∷ n) s = ground (arith, s.0, has-SameKeys q m n s.1)

  pub IsDistinct-SameKeys : (m : Table V) (n : Table W) → SameKeys m n → IsDistinct m → IsDistinct n
  unfolding IsDistinct
  IsDistinct-SameKeys [] [] s d = tt
  IsDistinct-SameKeys [] (_ ∷ n) s d = absurd s
  IsDistinct-SameKeys (_ ∷ m) [] s d = absurd s
  IsDistinct-SameKeys ((j, v) ∷ m) ((k, w) ∷ n) s d = (
    subst (λ (q : String). has q n ≡ false) s.0 (sym (has-SameKeys j m n s.1) ∙ d.0),
    IsDistinct-SameKeys m n s.1 d.1,
  )
