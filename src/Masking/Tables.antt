-- ===== src/Masking/Tables.antt =====
-- src/customTools/masking.ts: maskedTablesFromParsed and maskedTablesInSql. A set of names is a list
-- without repetitions, in the order of insertion.
use mcp_server_db2i.Prelude.{
  ℕ, String, Bool, true, false, not, ◌&&◌, ◌||◌, Option, none, some, List, [], ◌∷◌, ◌++◌, map, ◌≡◌,
  refl, ap, arith, if◌then◌else◌, ◌==◌, any, filter, str_eq, inl, inr, Bool-cases, leb,
}
use mcp_server_db2i.Prelude.Text.{upper, codes_eq, codes_eq_iff}
use mcp_server_db2i.Masking.{MaskingMap, Rules}
use mcp_server_db2i.Masking.Scan.{Token, comment, dot, slash, tokenize_sql}
use mcp_server_db2i.Masking.Check.{is_name, is_kind, holds, add_each}

-- A row of PARSE_STATEMENT.
pub record ParsedName : Type 0 where
  pub name_type : String
  pub schema : Option (List ℕ)
  pub name : Option (List ℕ)

abbrev pub is_space : ℕ → Bool
is_space c = c == 32 || (leb 9 c && leb c 13)

-- `trim`, for texts in ASCII: what is left without blanks at the start and at the end.
unfoldable pub trim_start : List ℕ → List ℕ
trim_start [] = []
trim_start (c ∷ s) = let rest = trim_start s in if is_space c then rest else c ∷ s

unfoldable pub trim_end : List ℕ → List ℕ
trim_end [] = []
trim_end (c ∷ s) = let rest = trim_end s in if is_space c && codes_eq rest [] then [] else c ∷ rest

-- `value?.trim().toUpperCase() || otherwise`
unfoldable pub normal_or : Option (List ℕ) → Option (List ℕ) → Option (List ℕ)
unfolding trim_start trim_end
normal_or none otherwise = otherwise
normal_or (some text) otherwise =
    let t = map upper (trim_start (trim_end text)) in if codes_eq t [] then otherwise else some t

abbrev pub keys : MaskingMap → List (List ℕ)
keys masking = map (λ (e : List ℕ × Rules). e.0) masking

unfoldable pub ends_with : List ℕ → List ℕ → Bool
ends_with suffix [] = codes_eq [] suffix
ends_with suffix (c ∷ s) = codes_eq (c ∷ s) suffix || ends_with suffix s

abbrev pub key_of : List ℕ → List ℕ → List ℕ
key_of schema table = schema ++ b'.' ∷ table

abbrev pub keys_of_table : MaskingMap → Option (List ℕ) → List ℕ → List (List ℕ)
keys_of_table masking none table = filter (λ k. ends_with (b'.' ∷ table) k) (keys masking)
keys_of_table masking (some schema) table =
    if holds (key_of schema table) (keys masking) then key_of schema table ∷ [] else []

abbrev pub keys_of_name :
    MaskingMap → Option (List ℕ) → Option (List ℕ) → Option (List ℕ) → List (List ℕ)
keys_of_name masking fallback schema none = []
keys_of_name masking fallback schema (some []) = []
keys_of_name masking fallback schema (some (c ∷ name)) =
    keys_of_table masking (normal_or schema fallback) (map upper (trim_start (trim_end (c ∷ name))))

-- The keys that one row adds.
unfoldable pub keys_of_row : MaskingMap → Option (List ℕ) → ParsedName → List (List ℕ)
unfolding normal_or ends_with trim_start trim_end
keys_of_row masking fallback row =
    if str_eq row.name_type "TABLE" || str_eq row.name_type "VIEW"
    then keys_of_name masking fallback row.schema row.name
    else []

unfoldable pub add_rows :
    MaskingMap → Option (List ℕ) → List ParsedName → List (List ℕ) → List (List ℕ)
unfolding keys_of_row
add_rows masking fallback [] found = found
add_rows masking fallback (row ∷ rows) found =
    add_rows masking fallback rows (add_each (keys_of_row masking fallback row) found)

unfoldable pub masked_tables_from_parsed :
    List ParsedName → MaskingMap → Option (List ℕ) → List (List ℕ)
unfolding add_rows normal_or
masked_tables_from_parsed rows masking default_schema =
    add_rows masking (normal_or default_schema none) rows []

-- What stands after the last dot, or the whole text.
unfoldable pub after_last_dot : List ℕ → Option (List ℕ)
after_last_dot [] = none
after_last_dot (c ∷ s) = elim (after_last_dot s) [
  | some rest ↦ some rest
  | none ↦ if c == b'.' then some s else none
]

abbrev pub has_table : List ℕ → List ℕ → Bool
has_table table key = elim (after_last_dot key) [
  | none ↦ codes_eq key table
  | some rest ↦ codes_eq rest table
]

abbrev pub separates : List Token → Bool
separates [] = false
separates (t ∷ ts) = is_kind dot t || is_kind slash t

abbrev pub follows : Option Token → Bool
follows none = false
follows (some t) = is_kind dot t || is_kind slash t

-- The key of two names with a separator between them.
abbrev pub qualified : MaskingMap → Token → List Token → List (List ℕ)
qualified masking t [] = []
qualified masking t (u ∷ []) = []
qualified masking t (u ∷ v ∷ ts) =
    if (is_kind dot u || is_kind slash u)
      && (is_name v.kind && holds (key_of t.upper_text v.upper_text) (keys masking))
    then key_of t.upper_text v.upper_text ∷ []
    else []

-- The keys that one token adds, after the token before it and before the others.
unfoldable pub keys_of_token : MaskingMap → Option Token → Token → List Token → List (List ℕ)
unfolding after_last_dot
keys_of_token masking previous t ts =
    if not (is_name t.kind)
    then []
    else qualified masking t ts
      ++ (if separates ts || follows previous
          then []
          else filter (λ k. has_table t.upper_text k) (keys masking))

unfoldable pub add_token_keys :
    MaskingMap → Option Token → List Token → List (List ℕ) → List (List ℕ)
unfolding keys_of_token
add_token_keys masking previous [] found = found
add_token_keys masking previous (t ∷ ts) found =
    add_token_keys masking (some t) ts (add_each (keys_of_token masking previous t ts) found)

unfoldable pub masked_tables_in_sql : List ℕ → MaskingMap → List (List ℕ)
unfolding add_token_keys
masked_tables_in_sql sql [] = []
masked_tables_in_sql sql (e ∷ masking) =
    add_token_keys (e ∷ masking) none
      (filter (λ (t : Token). not (is_kind comment t)) (tokenize_sql sql)) []

holds-append :
    (k : List ℕ) (xs ys : List (List ℕ)) → holds k (xs ++ ys) ≡ (holds k xs || holds k ys)
holds-append k [] ys = refl
holds-append k (x ∷ xs) ys = ground (arith, holds-append k xs ys)

holds_same :
    (k n : List ℕ) (names : List (List ℕ)) → codes_eq n k ≡ true → holds n names ≡ holds k names
holds_same k n names h = ap (λ (u : List ℕ). holds u names) ((codes_eq_iff n k).0 h)

holds-add_each :
    (k : List ℕ) (ns names : List (List ℕ))
    → holds k (add_each ns names) ≡ (holds k names || holds k ns)
holds-add_each k [] names = ground arith
holds-add_each k (n ∷ ns) names = elim (Bool-cases (holds n names)) [
  | inl old ↦ rw old (ground (arith, holds-add_each k ns names, holds_same k n names))
  | inr new ↦
      rw new (ground (arith, holds-add_each k ns (names ++ n ∷ []), holds-append k names (n ∷ [])))
]

holds-add_rows :
    (k : List ℕ) (masking : MaskingMap) (fallback : Option (List ℕ)) (rows : List ParsedName)
    (found : List (List ℕ))
    → holds k (add_rows masking fallback rows found)
      ≡ (holds k found || any (λ r. holds k (keys_of_row masking fallback r)) rows)
unfolding add_rows
holds-add_rows k masking fallback [] found = ground arith
holds-add_rows k masking fallback (r ∷ rows) found =
    let rest =
      holds-add_rows k masking fallback rows (add_each (keys_of_row masking fallback r) found) in
    ground (arith, rest, holds-add_each k (keys_of_row masking fallback r) found)

pub masked_tables_from_parsed-any :
    (k : List ℕ) (masking : MaskingMap) (default_schema : Option (List ℕ)) (rows : List ParsedName)
    → holds k (masked_tables_from_parsed rows masking default_schema)
      ≡ any (λ r. holds k (keys_of_row masking (normal_or default_schema none) r)) rows
unfolding masked_tables_from_parsed
masked_tables_from_parsed-any k masking default_schema rows =
    holds-add_rows k masking (normal_or default_schema none) rows []
