-- ===== src/Csv.antt =====
-- src/export/csv.ts: the fields and the rows of a CSV file. A text is the list of its UTF-16 code units.
-- The file sink is left out: a writer's output is the text that it appends.
pub mod Reading
mod Tests
use mcp_server_db2i.Prelude.{
  ℕ, Bool, true, false, ◌||◌, Option, none, some, List, [], ◌∷◌, ◌++◌, ◌==◌, if◌then◌else◌, any,
  map,
}

pub data ColumnKind : Type 0 where
  int bigint decimal float string date time timestamp binary other : ColumnKind

-- The fields of ExportColumn that the CSV writer reads.
pub record ExportColumn : Type 0 where
  pub name : List ℕ
  pub kind : ColumnKind
  pub masked : Bool

-- FORMULA_START, for the first character.
abbrev pub starts_formula : ℕ → Bool
starts_formula c =
    c == b'=' || c == b'+' || c == b'-' || c == b'@' || c == 9 || c == 13 || c == 10 || c == 65309

abbrev pub is_formula : List ℕ → Bool
is_formula [] = false
is_formula (c ∷ s) = starts_formula c

unfoldable pub guard_formula : List ℕ → List ℕ
guard_formula value = if is_formula value then b'\'' ∷ value else value

-- NEEDS_QUOTES, for one character.
abbrev pub needs_quotes : ℕ → Bool
needs_quotes c = c == b'"' || c == b',' || c == 13 || c == 10

-- `replace(/"/g, '""')`
unfoldable pub double_quotes : List ℕ → List ℕ
double_quotes [] = []
double_quotes (c ∷ s) =
    let rest = double_quotes s in if c == b'"' then b'"' ∷ b'"' ∷ rest else c ∷ rest

unfoldable pub quote : List ℕ → List ℕ
unfolding double_quotes
quote text = if any needs_quotes text then b'"' ∷ (double_quotes text ++ b'"' ∷ []) else text

abbrev pub is_text_kind : ColumnKind → Bool
is_text_kind string = true
is_text_kind other = true
is_text_kind int = false
is_text_kind bigint = false
is_text_kind decimal = false
is_text_kind float = false
is_text_kind date = false
is_text_kind time = false
is_text_kind timestamp = false
is_text_kind binary = false

-- `none` is null or undefined, and a value is what String makes of it.
unfoldable pub csv_field : Option (List ℕ) → ExportColumn → List ℕ
unfolding quote guard_formula
csv_field none column = []
csv_field (some text) column =
    quote (if column.masked || is_text_kind column.kind then guard_formula text else text)

-- `join(',')`
unfoldable pub join : List (List ℕ) → List ℕ
join [] = []
join (f ∷ []) = f
join (f ∷ g ∷ fs) = f ++ b',' ∷ join (g ∷ fs)

-- The fields of one row. A row that is too short has no values at its end.
unfoldable pub row_fields : List ExportColumn → List (Option (List ℕ)) → List (List ℕ)
unfolding csv_field
row_fields [] row = []
row_fields (column ∷ columns) [] = csv_field none column ∷ row_fields columns []
row_fields (column ∷ columns) (value ∷ row) = csv_field value column ∷ row_fields columns row

-- What writeHeader writes: the byte order mark, the names and a line end.
unfoldable pub write_header : List ExportColumn → List ℕ
unfolding join quote guard_formula
write_header columns =
    65279
    ∷ (join (map (λ (c : ExportColumn). quote (guard_formula c.name)) columns) ++ 13 ∷ 10 ∷ [])

-- What writeRows writes: every row with its line end, and nothing for no rows.
unfoldable pub write_rows : List ExportColumn → List (List (Option (List ℕ))) → List ℕ
unfolding row_fields join
write_rows columns [] = []
write_rows columns (row ∷ rows) = join (row_fields columns row) ++ 13 ∷ 10 ∷ write_rows columns rows
