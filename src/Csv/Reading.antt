-- ===== src/Csv/Reading.antt =====
-- src/export/csv.ts: a reader of fields by RFC 4180, and what it finds in what the writer wrote.
use mcp_server_db2i.Prelude.{
  ℕ, Bool, true, false, not, ◌&&◌, ◌||◌, some, List, [], ◌∷◌, ◌++◌, ◌≡◌, ◌∙◌, refl, sym, ap, inl,
  inr, arith, ◌==◌, if◌then◌else◌, any, Bool-cases,
}
use mathlib.Core.List.{append_assoc}
use mcp_server_db2i.Csv.{
  ExportColumn, is_formula, guard_formula, needs_quotes, double_quotes, quote, csv_field,
  is_text_kind,
}

-- Does a field end here?
abbrev pub at_end : List ℕ → Bool
at_end [] = true
at_end (c ∷ s) = c == b',' || c == 13 || c == 10

-- The rest of a field in quotes. `paired`: the character before is a quote that may be one of a pair.
unfoldable pub read_quoted : Bool → List ℕ → List ℕ × List ℕ
read_quoted paired [] = ([], [])
read_quoted paired (c ∷ s) =
    let is_quote = c == b'"' in
    let (a, b) = read_quoted (not paired && is_quote) s in
    if paired
    then (if is_quote then (b'"' ∷ a, b) else ([], c ∷ s))
    else if is_quote
    then (a, b)
    else (c ∷ a, b)

unfoldable pub read_plain : List ℕ → List ℕ × List ℕ
read_plain [] = ([], [])
read_plain (c ∷ s) = let (a, b) = read_plain s in if at_end (c ∷ s) then ([], c ∷ s) else (c ∷ a, b)

-- A field and what follows it.
unfoldable pub read_field : List ℕ → List ℕ × List ℕ
unfolding read_quoted read_plain
read_field [] = ([], [])
read_field (c ∷ s) = if c == b'"' then read_quoted false s else read_plain (c ∷ s)

read_plain_append :
    (text rest : List ℕ)
    → any needs_quotes text ≡ false
    → at_end rest ≡ true
    → read_plain (text ++ rest) ≡ (text, rest)
unfolding read_plain
read_plain_append [] [] n e = refl
read_plain_append [] (c ∷ rest) n e = ground arith
read_plain_append (c ∷ text) rest n e = ground (arith, read_plain_append text rest)

read_quoted_append :
    (text rest : List ℕ)
    → at_end rest ≡ true
    → read_quoted false (double_quotes text ++ b'"' ∷ rest) ≡ (text, rest)
unfolding read_quoted double_quotes
read_quoted_append [] [] e = refl
read_quoted_append [] (c ∷ rest) e = ground arith
read_quoted_append (c ∷ text) rest e = elim (Bool-cases (c == b'"')) [
  | inl same ↦ rw same (ground (arith, read_quoted_append text rest))
  | inr other ↦ rw other (ground (arith, read_quoted_append text rest))
]

read_field_plain :
    (text rest : List ℕ)
    → any needs_quotes text ≡ false
    → at_end rest ≡ true
    → read_field (text ++ rest) ≡ (text, rest)
unfolding read_field
read_field_plain [] [] n e = refl
read_field_plain [] (c ∷ rest) n e =
    let plain = read_plain_append [] (c ∷ rest) refl e in ground arith
read_field_plain (c ∷ text) rest n e =
    let plain = read_plain_append (c ∷ text) rest n e in
    let other : (c == b'"') ≡ false = ground arith in rw other plain

-- A field that `quote` writes is read back by the rules of RFC 4180 as the text that was quoted, with all
-- that follows left, wherever the field ends: before a comma, a line end or the end of the file.
pub read_field-quote :
    (text rest : List ℕ) → at_end rest ≡ true → read_field (quote text ++ rest) ≡ (text, rest)
unfolding read_field quote
read_field-quote text rest e = elim (Bool-cases (any needs_quotes text)) [
  | inl quoted ↦ rw quoted (
      ap (λ (u : List ℕ). read_quoted false u) (append_assoc (double_quotes text) (b'"' ∷ []) rest)
      ∙ read_quoted_append text rest e)
  | inr plain ↦ rw plain (read_field_plain text rest plain e)
]

-- The characters that start a formula, as the comment at guardFormula lists them: `=`, `+`, `-`, `@`, tab, carriage return, line
-- feed and the full-width `＝`.
abbrev pub formula_starts : List ℕ
formula_starts = 61 ∷ 43 ∷ 45 ∷ 64 ∷ 9 ∷ 13 ∷ 10 ∷ 65309 ∷ []

abbrev pub opens_formula : List ℕ → Bool
opens_formula [] = false
opens_formula (c ∷ s) = any (λ d. c == d) formula_starts

is_formula-opens_formula : (text : List ℕ) → is_formula text ≡ opens_formula text
is_formula-opens_formula [] = refl
is_formula-opens_formula (c ∷ s) = ground arith

guard_formula_opens :
    (text : List ℕ)
    → (opens_formula (guard_formula text) ≡ false)
      × (guard_formula text ≡ (if opens_formula text then b'\'' ∷ text else text))
unfolding guard_formula
guard_formula_opens text =
    let same = is_formula-opens_formula text in
    elim (Bool-cases (is_formula text)) [
      | inl formula ↦ rw (formula, sym same ∙ formula) (refl, refl)
      | inr harmless ↦ rw (harmless, sym same ∙ harmless) (refl, refl)
    ]

-- A value in a text column, or in a masked column of any kind, is read back from the file as a text that
-- does not start with `=`, `+`, `-`, `@`, a tab, a carriage return, a line feed or a full-width `＝`: a
-- value that starts with one of these gets an apostrophe in front, and any other is read back as it is.
pub read_field-csv_field :
    (text rest : List ℕ) (column : ExportColumn)
    → (column.masked || is_text_kind column.kind) ≡ true
    → at_end rest ≡ true
    → (opens_formula (read_field (csv_field (some text) column ++ rest)).0 ≡ false)
      × ((read_field (csv_field (some text) column ++ rest)).0
          ≡ (if opens_formula text then b'\'' ∷ text else text))
unfolding csv_field
read_field-csv_field text rest column is_text e =
    let back = read_field-quote (guard_formula text) rest e in
    let shown = ap (λ (r : List ℕ × List ℕ). r.0) back in
    let guarded = guard_formula_opens text in
    rw is_text (ap (λ (u : List ℕ). opens_formula u) shown ∙ guarded.0, shown ∙ guarded.1)
