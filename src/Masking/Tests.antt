-- ===== src/Masking/Tests.antt =====
-- src/customTools/masking.ts: the theorems at concrete inputs.
use mcp_server_db2i.Prelude.{
  ℕ, true, none, some, List, [], ◌∷◌, ◌≡◌, ◌↔◌, refl, arith, length, All, any,
}
use mcp_server_db2i.Prelude.Text.{codes, codes_eq}
use mcp_server_db2i.Masking.{
  redact, last_four, Rules, MaskingMap, lookup, Row, null, shown, mask_rows, ok, mask_row,
  mask_value, last4, require_masked_columns, redacted,
}
use mcp_server_db2i.Masking.Rows.{HidesEntry, FirstHas, mask_rows-Hides}
use mcp_server_db2i.Masking.Scan.{scan, tokenize_sql}
use mcp_server_db2i.Masking.Check.{holds}
use mcp_server_db2i.Masking.Tables.{
  ParsedName, masked_tables_from_parsed, keys_of_row, normal_or, add_rows, trim_start, trim_end,
}
use mcp_server_db2i.Masking.Named.{IsNamedBy, masked_tables_from_parsed-IsNamedBy}
use mcp_server_db2i.Masking.Fuel.{scan-tokenize_sql}

abbrev rules : Rules
rules = (codes "SSN", redact) ∷ (codes "CARD", last_four) ∷ []

abbrev rows : List Row
rows =
    ((codes "ssn", shown (codes "123")) ∷ (codes "Card", shown (codes "123456")) ∷ [])
    ∷ ((codes "ssn", null) ∷ (codes "Card", shown (codes "12")) ∷ [])
    ∷ []

abbrev masked : List Row
masked =
    ((codes "ssn", shown redacted) ∷ (codes "Card", shown (codes "**3456")) ∷ [])
    ∷ ((codes "ssn", null) ∷ (codes "Card", shown redacted) ∷ [])
    ∷ []

rows-masked : mask_rows rows rules ≡ ok masked
unfolding mask_rows mask_row mask_value last4 require_masked_columns lookup codes_eq
rows-masked = refl

mask_rows-Hides_example :
    All (All (HidesEntry rules)) masked × FirstHas rules rows × (length masked ≡ length rows)
mask_rows-Hides_example = mask_rows-Hides rows masked rules rows-masked

abbrev masking : MaskingMap
masking =
    (codes "L.A", (codes "SSN", last_four) ∷ []) ∷ (codes "L.B", (codes "SSN", redact) ∷ []) ∷ []

b_rules : lookup (codes "L.B") masking ≡ some ((codes "SSN", redact) ∷ [])
unfolding lookup codes_eq
b_rules = refl

b_redacts : lookup (codes "SSN") ((codes "SSN", redact) ∷ []) ≡ some redact
unfolding lookup codes_eq
b_redacts = refl

b_named : any (λ u. codes_eq u (codes "L.B")) (codes "L.A" ∷ codes "L.B" ∷ []) ≡ true
unfolding codes_eq
b_named = refl

abbrev statement : List ℕ
statement = codes "select t.ssn, 'ssn' from t -- ssn"

scan-tokenize_sql_example : scan 100 0 0 statement ≡ tokenize_sql statement
scan-tokenize_sql_example = scan-tokenize_sql 100 statement (omega arith)

abbrev parsed : List ParsedName
parsed =
    record { name_type = "VIEW"; schema = some (codes " l "); name = some (codes "b") }
    ∷ record { name_type = "COLUMN"; schema = none; name = some (codes "a") }
    ∷ []

masked_tables_from_parsed-IsNamedBy_example :
    (holds (codes "L.B") (masked_tables_from_parsed parsed masking none) ≡ true)
    ↔ IsNamedBy masking none parsed (codes "L.B")
masked_tables_from_parsed-IsNamedBy_example =
    masked_tables_from_parsed-IsNamedBy (codes "L.B") masking none parsed

parsed_found : holds (codes "L.B") (masked_tables_from_parsed parsed masking none) ≡ true
unfolding masked_tables_from_parsed keys_of_row normal_or add_rows trim_start trim_end codes_eq
parsed_found = refl
