-- ===== src/Csv/Tests.antt =====
-- src/export/csv.ts: the theorems at concrete inputs.
use mcp_server_db2i.Prelude.{ℕ, false, some, List, ◌∷◌, ◌++◌, ◌≡◌, refl, if◌then◌else◌}
use mcp_server_db2i.Prelude.Text.{codes}
use mcp_server_db2i.Csv.{ExportColumn, string, quote, csv_field}
use mcp_server_db2i.Csv.Reading.{opens_formula, read_field, read_field-quote, read_field-csv_field}

abbrev said : List ℕ
said = codes "a \"b\", c"

abbrev following : List ℕ
following = codes ",d"

read_field-quote_example : read_field (quote said ++ following) ≡ (said, following)
read_field-quote_example = read_field-quote said following refl

abbrev column : ExportColumn
column = record { name = codes "NOTE"; kind = string; masked = false }

abbrev formula : List ℕ
formula = codes "=1+\"2\""

read_field-csv_field_example :
    (opens_formula (read_field (csv_field (some formula) column ++ following)).0 ≡ false)
    × ((read_field (csv_field (some formula) column ++ following)).0
        ≡ (if opens_formula formula then b'\'' ∷ formula else formula))
read_field-csv_field_example = read_field-csv_field formula following column refl refl
