-- ===== src/Masking.antt =====
-- src/customTools/masking.ts: the rules that mask columns, and how they change the rows of a result.
-- A text is the list of its characters. Names are in ASCII, so toUpperCase is `map upper`. A value of
-- the driver is what String makes of it; the rows that come out hold texts where they were masked.
pub mod Scan
pub mod Check
pub mod Rows
pub mod Columns
pub mod Tables
pub mod Named
pub mod Words
pub mod Order
pub mod Items
pub mod Plain
pub mod Fuel
mod Tests
use mcp_server_db2i.Prelude.{
  ℕ, ◌-◌, String, Bool, true, false, not, Option, none, some, List, [], ◌∷◌, ◌++◌, map,
  if◌then◌else◌, length, leb, any, drop, replicate,
}
use mcp_server_db2i.Prelude.Text.{codes, upper, codes_eq}

pub data MaskRule : Type 0 where
  redact : MaskRule
  last_four : MaskRule

-- COLUMN (uppercased) to rule, in insertion order.
abbrev pub Rules : Type 0
Rules = List (List ℕ × MaskRule)

-- SCHEMA.TABLE (uppercased) to its rules.
abbrev pub MaskingMap : Type 0
MaskingMap = List (List ℕ × Rules)

-- Map.get and Map.set on such maps.
unfoldable pub lookup {ℓ} : {V : Type ℓ} → List ℕ → List (List ℕ × V) → Option V
lookup k [] = none
lookup k ((j, v) ∷ m) = if codes_eq j k then some v else lookup k m

unfoldable pub put {ℓ} : {V : Type ℓ} → List ℕ → V → List (List ℕ × V) → List (List ℕ × V)
put k v [] = (k, v) ∷ []
put k v ((j, w) ∷ m) = if codes_eq j k then (j, v) ∷ m else (j, w) ∷ put k v m

abbrev pub is_redact : MaskRule → Bool
is_redact redact = true
is_redact last_four = false

-- The inner loop of columnsForTables: redact wins.
unfoldable pub add_rules : Rules → Rules → Rules
unfolding lookup put
add_rules [] columns = columns
add_rules ((column, rule) ∷ rules) columns = add_rules rules (elim (lookup column columns) [
  | none ↦ put column rule columns
  | some current ↦ if is_redact rule then put column rule columns else columns
])

-- The outer loop of columnsForTables.
unfoldable pub add_tables : MaskingMap → List (List ℕ) → Rules → Rules
unfolding add_rules
add_tables masking [] columns = columns
add_tables masking (t ∷ tables) columns =
    add_tables masking tables
      (elim (lookup t masking) [ none ↦ columns | some rules ↦ add_rules rules columns ])

unfoldable pub columns_for_tables : MaskingMap → List (List ℕ) → Rules
unfolding add_tables
columns_for_tables masking tables = add_tables masking tables []

-- The column that is reported as missing, if one is.
unfoldable pub require_masked_columns : List (List ℕ) → Rules → Option (List ℕ)
require_masked_columns names [] = none
require_masked_columns names ((column, rule) ∷ rules) =
    let rest = require_masked_columns names rules in
    if any (λ n. codes_eq (map upper n) column) names then rest else some column

pub data Value : Type 0 where
  null : Value
  undefined : Value
  shown : List ℕ → Value

abbrev pub redacted : List ℕ
redacted = codes "****"

unfoldable pub last4 : List ℕ → List ℕ
last4 text =
    if leb (length text) 4
    then redacted
    else replicate (length text - 4) b'*' ++ drop (length text - 4) text

unfoldable pub mask_value : Value → MaskRule → Value
unfolding last4
mask_value null rule = null
mask_value undefined rule = undefined
mask_value (shown text) redact = shown redacted
mask_value (shown text) last_four = shown (last4 text)

-- The entries of one row.
abbrev pub Row : Type 0
Row = List (List ℕ × Value)

unfoldable pub mask_row : Rules → Row → Row
unfolding lookup mask_value
mask_row rules [] = []
mask_row rules ((key, value) ∷ row) =
    let rest = mask_row rules row in
    (elim (lookup (map upper key) rules) [
      | none ↦ (key, value)
      | some rule ↦ (key, mask_value value rule)
    ])
    ∷ rest

pub data MaskResult : Type 0 where
  ok : List Row → MaskResult
  missing_column : List ℕ → MaskResult

abbrev pub missing_in : List Row → Rules → Option (List ℕ)
missing_in [] rules = none
missing_in (row ∷ rows) rules = require_masked_columns (map (λ (e : List ℕ × Value). e.0) row) rules

unfoldable pub mask_rows : List Row → Rules → MaskResult
unfolding mask_row require_masked_columns
mask_rows rows [] = ok rows
mask_rows rows (rule ∷ rules) = elim (missing_in rows (rule ∷ rules)) [
  | some column ↦ missing_column column
  | none ↦ ok (map (mask_row (rule ∷ rules)) rows)
]
