-- ===== src/Prelude/Table.antt =====
-- A JavaScript `Map` with text keys: an association list in insertion order. `set` on a key that is
-- there keeps its place, and `delete` removes the key.
use Prim.Native.Nat.{suc, ◌+◌, ◌≤◌}
use Prim.Native.String.{String}
use mathlib.Core.Path.{◌≡◌, refl, sym, ap, ◌∙◌, subst₂}
use mathlib.Core.Logic.{inl, inr}
use mathlib.Core.Bool.{Bool, true, false, not}
use mathlib.Core.List.{List, [], ◌∷◌, map}
use mathlib.Core.Option.{Option, none, some}
use native.Mathlib.Omega.{arith}
use text.Mathlib.Text.{◌==◌}
use text.Mathlib.TextEquality.{eq_iff}
use mcp_server_db2i.Prelude.Tests.{if◌then◌else◌, is_some, Bool-cases, some-eq-some}
use mcp_server_db2i.Prelude.Lists.{length, any}

abbrev pub Table {ℓ} : Type ℓ → Type ℓ
Table V = List (String × V)

-- Keep a value only if it passes a test.
abbrev pub keep_if {ℓ} : {V : Type ℓ} → (V → Bool) → Option V → Option V
keep_if p none = none
keep_if p (some v) = if p v then some v else none

module _ {ℓ} {V : Type ℓ} where
  unfoldable pub get : String → Table V → Option V
  get k [] = none
  get k ((j, v) ∷ m) = if j == k then some v else get k m

  unfoldable pub set : String → V → Table V → Table V
  set k v [] = (k, v) ∷ []
  set k v ((j, w) ∷ m) = if j == k then (k, v) ∷ m else (j, w) ∷ set k v m

  unfoldable pub delete : String → Table V → Table V
  delete k [] = []
  delete k ((j, w) ∷ m) = if j == k then delete k m else (j, w) ∷ delete k m

  -- The deletions that a loop over some keys makes.
  unfoldable pub delete_all : List String → Table V → Table V
  delete_all [] m = m
  delete_all (k ∷ ks) m = delete_all ks (delete k m)

  -- The entries whose value passes a test, in order.
  unfoldable pub keep : (V → Bool) → Table V → Table V
  keep p [] = []
  keep p ((j, w) ∷ m) = if p w then (j, w) ∷ keep p m else keep p m

  -- The keys of the entries whose value passes a test, in order.
  unfoldable pub keys_where : (V → Bool) → Table V → List String
  keys_where p [] = []
  keys_where p ((j, w) ∷ m) = if p w then j ∷ keys_where p m else keys_where p m

  abbrev pub has : String → Table V → Bool
  has k m = is_some (get k m)

  abbrev pub values : Table V → List V
  values m = map (λ e. e.1) m

  -- No key stands twice.
  unfoldable pub IsDistinct : Table V → Type 0
  IsDistinct [] = Unit
  IsDistinct ((j, w) ∷ m) = (has j m ≡ false) × IsDistinct m

module _ {ℓ} {V : Type ℓ} where
  pub get-set :
      (k j : String) (v : V) (m : Table V)
      → get j (set k v m) ≡ (if k == j then some v else get j m)
  unfolding get set
  get-set k j v [] = refl
  get-set k j v ((i, w) ∷ m) = ground (arith, eq_iff k j, eq_iff i k, eq_iff i j, get-set k j v m)

  pub get-delete :
      (k j : String) (m : Table V) → get j (delete k m) ≡ (if k == j then none else get j m)
  unfolding get delete
  get-delete k j [] = ground arith
  get-delete k j ((i, w) ∷ m) = ground (arith, eq_iff k j, eq_iff i k, eq_iff i j, get-delete k j m)

  pub length-set :
      (k : String) (v : V) (m : Table V)
      → length (set k v m) ≡ (if has k m then length m else suc (length m))
  unfolding get set
  length-set k v [] = refl
  length-set k v ((i, w) ∷ m) = ground (arith, length-set k v m)

  pub length-set-le : (k : String) (v : V) (m : Table V) → length (set k v m) ≤ suc (length m)
  length-set-le k v m = ground (arith, length-set k v m)

  pub length-set_absent :
      (k : String) (v : V) (m : Table V) → has k m ≡ false → length (set k v m) ≡ suc (length m)
  length-set_absent k v m h = rw h at (length-set k v m)

  pub length-set_present :
      (k : String) (v : V) (m : Table V) → has k m ≡ true → length (set k v m) ≡ length m
  length-set_present k v m h = rw h at (length-set k v m)

  pub length-delete-le : (k : String) (m : Table V) → length (delete k m) ≤ length m
  unfolding delete
  length-delete-le k [] = omega arith
  length-delete-le k ((i, w) ∷ m) = ground (arith, length-delete-le k m)

  -- A key that is there is gone afterwards, so there is room.
  pub length-delete-lt :
      (k : String) (m : Table V) → has k m ≡ true → suc (length (delete k m)) ≤ length m
  unfolding delete get
  length-delete-lt k [] h = cc
  length-delete-lt k ((i, w) ∷ m) h = ground (arith, length-delete-le k m, length-delete-lt k m)

  pub length-delete_all-le : (ks : List String) (m : Table V) → length (delete_all ks m) ≤ length m
  unfolding delete_all
  length-delete_all-le [] m = omega arith
  length-delete_all-le (k ∷ ks) m =
      omega (arith, length-delete-le k m, length-delete_all-le ks (delete k m))

  pub length-keep-le : (p : V → Bool) (m : Table V) → length (keep p m) ≤ length m
  unfolding keep
  length-keep-le p [] = omega arith
  length-keep-le p ((i, w) ∷ m) = ground (arith, length-keep-le p m)

  get-keep_absent :
      (p : V → Bool) (k : String) (m : Table V) → get k m ≡ none → get k (keep p m) ≡ none
  unfolding get keep
  get-keep_absent p k [] h = refl
  get-keep_absent p k ((i, w) ∷ m) h = ground (arith, get-keep_absent p k m)

  pub get-keep :
      (p : V → Bool) (k : String) (m : Table V)
      → IsDistinct m
      → get k (keep p m) ≡ keep_if p (get k m)
  unfolding get keep IsDistinct
  get-keep p k [] d = refl
  get-keep p k ((i, w) ∷ m) d =
      ground (arith, eq_iff i k, get-keep p k m d.1, get-keep_absent p i m)

  pub set-IsDistinct : (k : String) (v : V) (m : Table V) → IsDistinct m → IsDistinct (set k v m)
  unfolding set get IsDistinct
  set-IsDistinct k v [] d = (refl, tt)
  set-IsDistinct k v ((i, w) ∷ m) d =
      ground (arith, eq_iff i k, eq_iff k i, set-IsDistinct k v m d.1, get-set k i v m)

  pub delete-IsDistinct : (k : String) (m : Table V) → IsDistinct m → IsDistinct (delete k m)
  unfolding delete IsDistinct
  delete-IsDistinct k [] d = d
  delete-IsDistinct k ((i, w) ∷ m) d = ground (arith, delete-IsDistinct k m d.1, get-delete k i m)

  pub delete_all-IsDistinct :
      (ks : List String) (m : Table V) → IsDistinct m → IsDistinct (delete_all ks m)
  unfolding delete_all
  delete_all-IsDistinct [] m d = d
  delete_all-IsDistinct (k ∷ ks) m d =
      delete_all-IsDistinct ks (delete k m) (delete-IsDistinct k m d)

  pub keep-IsDistinct : (p : V → Bool) (m : Table V) → IsDistinct m → IsDistinct (keep p m)
  unfolding keep IsDistinct
  keep-IsDistinct p [] d = d
  keep-IsDistinct p ((i, w) ∷ m) d = ground (arith, keep-IsDistinct p m d.1, get-keep_absent p i m)

  pub get-delete_all-none :
      (ks : List String) (k : String) (m : Table V)
      → get k m ≡ none
      → get k (delete_all ks m) ≡ none
  unfolding delete_all
  get-delete_all-none [] k m h = h
  get-delete_all-none (j ∷ ks) k m h =
      get-delete_all-none ks k (delete j m) (ground (arith, get-delete j k m))

  delete_all-skip :
      (ks : List String) (j : String) (w : V) (m : Table V)
      → any (λ k. j == k) ks ≡ false
      → delete_all ks ((j, w) ∷ m) ≡ (j, w) ∷ delete_all ks m
  unfolding delete_all delete
  delete_all-skip [] j w m h = refl
  delete_all-skip (k ∷ ks) j w m h = ground (arith, delete_all-skip ks j w (delete k m))

  absent-keys_where :
      (p : V → Bool) (j : String) (m : Table V)
      → get j m ≡ none
      → any (λ k. j == k) (keys_where p m) ≡ false
  unfolding get keys_where
  absent-keys_where p j [] h = refl
  absent-keys_where p j ((i, w) ∷ m) h =
      ground (arith, eq_iff i j, eq_iff j i, absent-keys_where p j m)

  pub delete_absent : (k : String) (m : Table V) → get k m ≡ none → delete k m ≡ m
  unfolding get delete
  delete_absent k [] h = refl
  delete_absent k ((i, w) ∷ m) h = ground (arith, delete_absent k m)

  -- To delete the keys whose value passes a test is to keep the entries whose value does not.
  pub delete_all-keys_where :
      (p : V → Bool) (m : Table V)
      → IsDistinct m
      → delete_all (keys_where p m) m ≡ keep (λ v. not (p v)) m
  unfolding delete_all keys_where keep delete IsDistinct
  delete_all-keys_where p [] d = refl
  delete_all-keys_where p ((i, w) ∷ m) d = ground (
    arith,
    eq_iff i i,
    delete_all-keys_where p m d.1,
    delete_absent i m,
    delete_all-skip (keys_where p m) i w m,
    absent-keys_where p i m,
  )

module _ {ℓ} {V : Type ℓ} where
  pub length-delete :
      (k : String) (m : Table V)
      → IsDistinct m
      → has k m ≡ true
      → suc (length (delete k m)) ≡ length m
  unfolding delete get IsDistinct
  length-delete k [] d h = cc
  length-delete k ((i, w) ∷ m) d h =
      ground (arith, eq_iff i k, length-delete k m d.1, delete_absent k m)

  pub length-keep_split :
      (p : V → Bool) (m : Table V) → length (keep p m) + length (keep (λ v. not (p v)) m) ≡ length m
  unfolding keep
  length-keep_split p [] = refl
  length-keep_split p ((i, w) ∷ m) = ground (arith, length-keep_split p m)

-- Every entry that a lookup finds satisfies a predicate.
module _ {ℓ κ} {V : Type ℓ} (P : String → V → Type κ) where
  abbrev pub Every : Table V → Type (ℓ ⊔ κ)
  Every m = (k : String) (v : V) → get k m ≡ some v → P k v

  pub set-Every : (k : String) (v : V) (m : Table V) → P k v → Every m → Every (set k v m)
  set-Every k v m p h j w e = elim (Bool-cases (k == j)) [
    | inl same ↦
        let g : some v ≡ some w = sym (rw same at (get-set k j v m)) ∙ e in
        subst₂ P ((eq_iff k j).0 same) (some-eq-some g) p
    | inr other ↦ h j w (sym (rw other at (get-set k j v m)) ∙ e)
  ]

  pub delete-Every : (k : String) (m : Table V) → Every m → Every (delete k m)
  delete-Every k m h j w e = elim (Bool-cases (k == j)) [
    | inl same ↦ absurd (ground (arith, get-delete k j m))
    | inr other ↦ h j w (sym (rw other at (get-delete k j m)) ∙ e)
  ]

  pub nil-Every : Every []
  unfolding get
  nil-Every j w e = cc

-- The listed entries are those that a lookup finds.
module _ {ℓ} {V : Type ℓ} where
  abbrev pub Found : Table V → Table V → Type ℓ
  Found m [] = Unit
  Found m ((k, v) ∷ es) = (get k m ≡ some v) × Found m es

  pub delete-Found :
      (k : String) (m es : Table V) → has k es ≡ false → Found m es → Found (delete k m) es
  unfolding get
  delete-Found k m [] h f = tt
  delete-Found k m ((i, w) ∷ es) h f =
      ground (arith, eq_iff i k, eq_iff k i, get-delete k i m, delete-Found k m es)

  cons-Found :
      (k : String) (v : V) (m es : Table V) → has k es ≡ false → Found m es → Found ((k, v) ∷ m) es
  unfolding get
  cons-Found k v m [] h f = tt
  cons-Found k v m ((i, w) ∷ es) h f = ground (arith, eq_iff i k, eq_iff k i, cons-Found k v m es)

  pub self-Found : (m : Table V) → IsDistinct m → Found m m
  unfolding get IsDistinct
  self-Found [] d = tt
  self-Found ((k, v) ∷ m) d =
      (ground (arith, eq_iff k k), cons-Found k v m m d.0 (self-Found m d.1))

-- No value passes a test.
module _ {ℓ} {V : Type ℓ} (p : V → Bool) where
  pub any-set :
      (k : String) (v : V) (m : Table V)
      → p v ≡ false
      → any p (values m) ≡ false
      → any p (values (set k v m)) ≡ false
  unfolding set
  any-set k v [] h n = rw h
  any-set k v ((i, w) ∷ m) h n = ground (arith, any-set k v m h)

  pub any-delete :
      (k : String) (m : Table V) → any p (values m) ≡ false → any p (values (delete k m)) ≡ false
  unfolding delete
  any-delete k [] n = refl
  any-delete k ((i, w) ∷ m) n = ground (arith, any-delete k m)

  pub any-delete_all :
      (ks : List String) (m : Table V)
      → any p (values m) ≡ false
      → any p (values (delete_all ks m)) ≡ false
  unfolding delete_all
  any-delete_all [] m n = n
  any-delete_all (k ∷ ks) m n = any-delete_all ks (delete k m) (any-delete k m n)

  pub any-get :
      (k : String) (v : V) (m : Table V) → get k m ≡ some v → any p (values m) ≡ false → p v ≡ false
  unfolding get
  any-get k v [] e n = cc
  any-get k v ((i, w) ∷ m) e n = ground (arith, any-get k v m)

  any-keep-not : (m : Table V) → any p (values (keep (λ v. not (p v)) m)) ≡ false
  unfolding keep
  any-keep-not [] = refl
  any-keep-not ((k, s) ∷ m) = ground (arith, any-keep-not m)

  -- To delete the keys whose value passes the test leaves none that does.
  pub any-delete_all-keys_where :
      (m : Table V) → IsDistinct m → any p (values (delete_all (keys_where p m) m)) ≡ false
  any-delete_all-keys_where m d =
      ap (λ t. any p (values t)) (delete_all-keys_where p m d) ∙ any-keep-not m
