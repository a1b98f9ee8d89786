-- ===== src/Masking/Columns.antt =====
-- src/customTools/masking.ts: the rules of several tables together.
use mcp_server_db2i.Prelude.{
  ℕ, true, none, some, List, [], ◌∷◌, ◌≡◌, ◌∙◌, refl, sym, ap, if◌then◌else◌, inl, inr, arith,
  Option-cases, Bool-cases, some-eq-some, any, subst,
}
use mcp_server_db2i.Prelude.Text.{codes_eq, codes_eq_iff}
use mcp_server_db2i.Masking.{
  MaskRule, redact, last_four, Rules, MaskingMap, lookup, put, add_rules, add_tables,
  columns_for_tables, is_redact,
}

lookup-put {ℓ} :
    {V : Type ℓ} (k j : List ℕ) (v : V) (m : List (List ℕ × V))
    → lookup j (put k v m) ≡ (if codes_eq k j then some v else lookup j m)
unfolding lookup put
lookup-put k j v [] = refl
lookup-put k j v ((i, w) ∷ m) =
    ground (arith, lookup-put k j v m, codes_eq_iff k j, codes_eq_iff i k, codes_eq_iff i j)

put_redact :
    (column c : List ℕ) (rule : MaskRule) (columns : Rules)
    → lookup c columns ≡ some redact
    → lookup c (if is_redact rule then put column rule columns else columns) ≡ some redact
put_redact column c last_four columns h = h
put_redact column c redact columns h = lookup-put column c redact columns ∙ ground (arith, h)

put_missing :
    (column c : List ℕ) (rule : MaskRule) (columns : Rules)
    → lookup column columns ≡ none
    → lookup c columns ≡ some redact
    → lookup c (put column rule columns) ≡ some redact
put_missing column c rule columns missing h = elim (Bool-cases (codes_eq column c)) [
  | inl same ↦ absurd (
      ground
        (arith, missing, h, ap (λ (k : List ℕ). lookup k columns) ((codes_eq_iff column c).0 same)))
  | inr other ↦ lookup-put column c rule columns ∙ rw other h
]

-- A column that is redacted stays so.
add_rules_keeps :
    (rules columns : Rules) (c : List ℕ)
    → lookup c columns ≡ some redact
    → lookup c (add_rules rules columns) ≡ some redact
unfolding add_rules
add_rules_keeps [] columns c h = h
add_rules_keeps ((column, rule) ∷ rules) columns c h = elim (Option-cases (lookup column columns)) [
  | inl missing ↦ rw missing (
      add_rules_keeps rules (put column rule columns) c
        (put_missing column c rule columns missing h))
  | inr (current, found) ↦ rw found (
      add_rules_keeps rules (if is_redact rule then put column rule columns else columns) c
        (put_redact column c rule columns h))
]

add_rules_adds :
    (rules columns : Rules) (c : List ℕ)
    → lookup c rules ≡ some redact
    → lookup c (add_rules rules columns) ≡ some redact
unfolding add_rules lookup
add_rules_adds [] columns c h = absurd cc
add_rules_adds ((column, rule) ∷ rules) columns c h = elim (Bool-cases (codes_eq column c)) [
  | inl same ↦
      let red : rule ≡ redact = some-eq-some (rw same at h) in
      let placed : lookup c (put column rule columns) ≡ some redact =
        lookup-put column c rule columns ∙ rw (same, red) refl in
      elim (Option-cases (lookup column columns)) [
        | inl missing ↦ rw missing (add_rules_keeps rules (put column rule columns) c placed)
        | inr (current, found) ↦ rw found (
            add_rules_keeps rules (if is_redact rule then put column rule columns else columns) c (
              subst
                (λ (q : MaskRule).
                  lookup c (if is_redact q then put column rule columns else columns) ≡ some redact)
                (sym red) placed))
      ]
  | inr other ↦ add_rules_adds rules _ c (rw other at h)
]

add_tables_keeps :
    (masking : MaskingMap) (tables : List (List ℕ)) (columns : Rules) (c : List ℕ)
    → lookup c columns ≡ some redact
    → lookup c (add_tables masking tables columns) ≡ some redact
unfolding add_tables
add_tables_keeps masking [] columns c h = h
add_tables_keeps masking (t ∷ tables) columns c h = elim (Option-cases (lookup t masking)) [
  | inl missing ↦ rw missing (add_tables_keeps masking tables columns c h)
  | inr (rules, found) ↦ rw found (
      add_tables_keeps masking tables (add_rules rules columns) c
        (add_rules_keeps rules columns c h))
]

add_tables_adds :
    (masking : MaskingMap) (tables : List (List ℕ)) (columns rules : Rules) (t c : List ℕ)
    → any (λ u. codes_eq u t) tables ≡ true
    → lookup t masking ≡ some rules
    → lookup c rules ≡ some redact
    → lookup c (add_tables masking tables columns) ≡ some redact
unfolding add_tables
add_tables_adds masking [] columns rules t c m found h = absurd cc
add_tables_adds masking (u ∷ tables) columns rules t c m found h =
    elim (Bool-cases (codes_eq u t)) [
      | inl same ↦
          let here : lookup u masking ≡ some rules =
            ap (λ (k : List ℕ). lookup k masking) ((codes_eq_iff u t).0 same) ∙ found in
          rw here (
            add_tables_keeps masking tables (add_rules rules columns) c
              (add_rules_adds rules columns c h))
      | inr other ↦ add_tables_adds masking tables _ rules t c (rw other at m) found h
    ]

-- A column that one of the referenced tables redacts is redacted, whatever rule the other tables have
-- for it and in whatever order they are named.
pub columns_for_tables_redact :
    (masking : MaskingMap) (tables : List (List ℕ)) (rules : Rules) (t c : List ℕ)
    → any (λ u. codes_eq u t) tables ≡ true
    → lookup t masking ≡ some rules
    → lookup c rules ≡ some redact
    → lookup c (columns_for_tables masking tables) ≡ some redact
unfolding columns_for_tables
columns_for_tables_redact masking tables rules t c m found h =
    add_tables_adds masking tables [] rules t c m found h
