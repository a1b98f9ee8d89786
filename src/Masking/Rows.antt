-- ===== src/Masking/Rows.antt =====
-- src/customTools/masking.ts: the values in the rows that maskRows returns.
use mcp_server_db2i.Prelude.{
  ℕ, zero, suc, ◌+◌, ◌-◌, ◌≤◌, true, false, Option, none, some, List, [], ◌∷◌, ◌++◌, ◌≡◌, ◌∙◌, refl,
  sym, ap, map, if◌then◌else◌, length, leb, any, all, ◌==◌, drop, take, replicate, inl, inr, arith,
  Option-cases, Bool-cases, All, length-append, length-replicate, length-drop, subst, length-map,
}
use mcp_server_db2i.Prelude.Text.{upper, codes_eq}
use mcp_server_db2i.Masking.{
  MaskRule, redact, last_four, Rules, lookup, require_masked_columns, Value, null, undefined, shown,
  redacted, last4, mask_value, Row, mask_row, ok, missing_in, mask_rows,
}

-- What a value may show under a rule: nothing but stars, or stars before the last four characters, and
-- a text of at most four characters not at all.
abbrev pub Hides : MaskRule → Value → Type 0
Hides rule null = Unit
Hides rule undefined = Unit
Hides redact (shown text) = text ≡ redacted
Hides last_four (shown text) =
    (if leb (length text) 4
      then codes_eq text redacted
      else all (λ c. c == b'*') (take (length text - 4) text))
    ≡ true

abbrev pub HidesBy : Option MaskRule → Value → Type 0
HidesBy none v = Unit
HidesBy (some rule) v = Hides rule v

abbrev pub HidesEntry : Rules → List ℕ × Value → Type 0
HidesEntry rules e = HidesBy (lookup (map upper e.0) rules) e.1

all-stars : (n : ℕ) (t : List ℕ) → all (λ c. c == b'*') (take n (replicate n b'*' ++ t)) ≡ true
all-stars zero t = refl
all-stars (suc n) t = all-stars n t

stars-Hides :
    (n : ℕ) (t : List ℕ) → 1 ≤ n → length t ≡ 4 → Hides last_four (shown (replicate n b'*' ++ t))
stars-Hides n t some_stars four =
    let size : length (replicate n b'*' ++ t) ≡ n + 4 =
      omega (arith, length-append (replicate n b'*') t, length-replicate {A = ℕ} n b'*') in
    let cut : length (replicate n b'*' ++ t) - 4 ≡ n = omega arith in
    let long : leb (length (replicate n b'*' ++ t)) 4 ≡ false = ground (arith, size) in
    rw long (
      subst (λ k. all (λ c. c == b'*') (take k (replicate n b'*' ++ t)) ≡ true) (sym cut)
        (all-stars n t))

last4-Hides : (text : List ℕ) → Hides last_four (shown (last4 text))
unfolding last4 codes_eq
last4-Hides text = elim (Bool-cases (leb (length text) 4)) [
  | inl small ↦ rw (small, last4) refl
  | inr long ↦
      let n = length text - 4 in
      rw (long, last4)
        (stars-Hides n (drop n text) (ground arith) (ground (arith, length-drop n text)))
]

mask_value-Hides : (rule : MaskRule) (v : Value) → Hides rule (mask_value v rule)
unfolding mask_value
mask_value-Hides rule null = tt
mask_value-Hides rule undefined = tt
mask_value-Hides redact (shown text) = refl
mask_value-Hides last_four (shown text) = last4-Hides text

mask_row-Hides : (rules : Rules) (row : Row) → All (HidesEntry rules) (mask_row rules row)
unfolding mask_row
mask_row-Hides rules [] = tt
mask_row-Hides rules ((key, value) ∷ row) = elim (Option-cases (lookup (map upper key) rules)) [
  | inl absent ↦ rw absent (rw absent tt, mask_row-Hides rules row)
  | inr (rule, found) ↦ rw found (rw found (mask_value-Hides rule value), mask_row-Hides rules row)
]

-- Every column with a rule is a key of the row.
abbrev pub HasColumns : Rules → Row → Type 0
HasColumns rules row =
    All
      (λ (e : List ℕ × MaskRule).
        any (λ n. codes_eq (map upper n) e.0) (map (λ (c : List ℕ × Value). c.0) row) ≡ true)
      rules

abbrev pub FirstHas : Rules → List Row → Type 0
FirstHas rules [] = Unit
FirstHas rules (row ∷ rows) = HasColumns rules row

require_masked_columns_all :
    (rules : Rules) (row : Row)
    → require_masked_columns (map (λ (c : List ℕ × Value). c.0) row) rules ≡ none
    → HasColumns rules row
unfolding require_masked_columns
require_masked_columns_all [] row h = tt
require_masked_columns_all ((column, rule) ∷ rules) row h =
    let names = map (λ (c : List ℕ × Value). c.0) row in
    elim (Bool-cases (any (λ n. codes_eq (map upper n) column) names)) [
      | inl there ↦
          (there, require_masked_columns_all rules row (rw (there, require_masked_columns) at h))
      | inr absent ↦ absurd (ground (arith, rw (absent, require_masked_columns) at h))
    ]

map-mask_row-Hides :
    (rules : Rules) (rows : List Row) → All (All (HidesEntry rules)) (map (mask_row rules) rows)
map-mask_row-Hides rules [] = tt
map-mask_row-Hides rules (row ∷ rows) = (mask_row-Hides rules row, map-mask_row-Hides rules rows)

missing_in_all :
    (rules : Rules) (rows : List Row) → missing_in rows rules ≡ none → FirstHas rules rows
missing_in_all rules [] h = tt
missing_in_all rules (row ∷ rows) h = require_masked_columns_all rules row h

no_rules-Hides : (row : Row) → All (HidesEntry []) row
unfolding lookup
no_rules-Hides [] = tt
no_rules-Hides (e ∷ row) = (tt, no_rules-Hides row)

no_rules-rows : (rows : List Row) → All (All (HidesEntry [])) rows
no_rules-rows [] = tt
no_rules-rows (row ∷ rows) = (no_rules-Hides row, no_rules-rows rows)

no_rules-FirstHas : (rows : List Row) → FirstHas [] rows
no_rules-FirstHas [] = tt
no_rules-FirstHas (row ∷ rows) = tt

-- Rows that maskRows returns show no masked value: in every row, a column with the rule redact holds
-- `****` and one with the rule last4 only stars before its last four characters and `****` if it has
-- four at most, except where the value is null or undefined. The rows are returned only if there are
-- none or the first of them has every column with a rule, and none is added or dropped.
pub mask_rows-Hides :
    (rows out : List Row) (rules : Rules)
    → mask_rows rows rules ≡ ok out
    → All (All (HidesEntry rules)) out × FirstHas rules rows × (length out ≡ length rows)
unfolding mask_rows
mask_rows-Hides rows out [] h =
    let same : rows ≡ out = cc in
    (
      subst (All (All (HidesEntry []))) same (no_rules-rows rows),
      no_rules-FirstHas rows,
      ap (λ (r : List Row). length r) (sym same),
    )
mask_rows-Hides rows out (rule ∷ rules) h =
    let all_rules : Rules = rule ∷ rules in
    elim (Option-cases (missing_in rows all_rules)) [
      | inr (column, absent) ↦ absurd (ground (arith, rw (absent, mask_rows) at h))
      | inl complete ↦
          let masked : ok (map (mask_row all_rules) rows) ≡ ok out =
            rw (complete, mask_rows) at h in
          let same : map (mask_row all_rules) rows ≡ out = cc in
          (
            subst (All (All (HidesEntry all_rules))) same (map-mask_row-Hides all_rules rows),
            missing_in_all all_rules rows complete,
            ap (λ (r : List Row). length r) (sym same) ∙ length-map (mask_row all_rules) rows,
          )
    ]
