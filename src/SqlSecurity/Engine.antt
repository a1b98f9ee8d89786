-- ===== src/SqlSecurity/Engine.antt =====
-- src/utils/security/sqlSecurityValidator.ts: the word lists, the patterns, and the texts that the checks
-- test. The fixed character classes of the JavaScript engine are written out.
use Prim.Native.String.{String}
use mcp_server_db2i.Prelude.{
  ℕ, Bool, true, false, not, ◌&&◌, ◌||◌, Option, none, some, List, [], ◌∷◌, ◌++◌, ◌==◌, leb, any,
  map, if◌then◌else◌,
}
use mcp_server_db2i.Prelude.Text.{is_space, codes, codes_eq, is_letter, is_digit, upper}
use mcp_server_db2i.SqlSecurity.{starts, tail}

-- DB2_SEPARATOR: `\p{Cc}`, `\p{Z}` and NEL, which is a control.
abbrev pub is_db2_separator : ℕ → Bool
is_db2_separator c =
    leb c 32
    || leb 127 c && leb c 160
    || c == 5760
    || leb 8192 c && leb c 8202
    || c == 8232
    || c == 8233
    || c == 8239
    || c == 8287
    || c == 12288

abbrev pub dangerous_operations : List String
dangerous_operations =
    "INSERT" ∷ "UPDATE" ∷ "DELETE" ∷ "REPLACE" ∷ "MERGE" ∷ "TRUNCATE" ∷ "DROP" ∷ "CREATE" ∷ "ALTER"
    ∷ "RENAME" ∷ "CALL" ∷ "EXEC" ∷ "EXECUTE" ∷ "SET" ∷ "DECLARE" ∷ "GRANT" ∷ "REVOKE" ∷ "DENY"
    ∷ "LOAD" ∷ "IMPORT" ∷ "EXPORT" ∷ "BULK" ∷ "SHUTDOWN" ∷ "RESTART" ∷ "KILL" ∷ "STOP" ∷ "START"
    ∷ "BACKUP" ∷ "RESTORE" ∷ "DUMP" ∷ "LOCK" ∷ "UNLOCK" ∷ "COMMIT" ∷ "ROLLBACK" ∷ "SAVEPOINT" ∷ []

abbrev pub ibm_i_dangerous_operations : List String
ibm_i_dangerous_operations = "QCMDEXC" ∷ "SQL_EXECUTE_IMMEDIATE" ∷ []

abbrev pub dangerous_functions : List String
dangerous_functions =
    "SYSTEM" ∷ "QCMDEXC" ∷ "SQL_EXECUTE_IMMEDIATE" ∷ "SQLCMD" ∷ "LOAD_EXTENSION" ∷ "EXEC"
    ∷ "EXECUTE_IMMEDIATE" ∷ "EVAL" ∷ []

abbrev pub side_effect_function_prefixes : List String
side_effect_function_prefixes =
    "HTTP_" ∷ "HTTPGET" ∷ "HTTPPOST" ∷ "HTTPPUT" ∷ "HTTPDELETE" ∷ "HTTPHEAD" ∷ "HTTPBLOB"
    ∷ "HTTPCLOB" ∷ "IFS_WRITE" ∷ "GENERATE_SPREADSHEET" ∷ "SEND_EMAIL" ∷ []

abbrev pub all_dangerous_operations : List String
all_dangerous_operations = dangerous_operations ++ ibm_i_dangerous_operations

abbrev pub query_start_words : List String
query_start_words = "SELECT" ∷ "WITH" ∷ "VALUES" ∷ []

-- A check: the source of its pattern, which is tested without case, and its message or operation.
abbrev pub Check : Type 0
Check = List ℕ × List ℕ

unfoldable pub data_change_shapes : List Check
data_change_shapes =
    (codes "\\bINSERT\\s+INTO\\b", codes "INSERT")
    ∷ (codes "\\bDELETE\\s+FROM\\b", codes "DELETE")
    ∷ (codes "\\bMERGE\\s+INTO\\b", codes "MERGE")
    ∷ (
      codes
          "\\bUPDATE\\s+[\\w$#@]+(?:\\s*\\.\\s*[\\w$#@]+)*(?:\\s+(?:AS\\s+)?[\\w$#@]+)?\\s+SET\\b",
      codes "UPDATE",
    )
    ∷ (
      codes "\\bTABLE\\W*\\(\\W*(?:INSERT|UPDATE|DELETE|MERGE)\\b",
      codes "data-change table reference",
    )
    ∷ []

abbrev pub operation_check : String → Check
operation_check operation = (
  codes "\\b" ++ codes operation ++ codes "\\b",
  codes "Dangerous operation detected: " ++ codes operation,
)

abbrev pub function_check : String → Check
function_check name = (
  codes "\\b" ++ codes name ++ codes "\\s*\\(",
  codes "Dangerous function call detected: " ++ codes name,
)

abbrev pub prefix_check : String → Check
prefix_check prefix = (
  codes "\\b(?:\\w+\\.)?" ++ codes prefix ++ codes "\\w*\\s*\\(",
  codes "Dangerous function call detected: " ++ codes prefix,
)

unfoldable pub regex_checks : List Check
regex_checks =
    map operation_check ibm_i_dangerous_operations
    ++ map function_check dangerous_functions
    ++ map prefix_check side_effect_function_prefixes

-- `\w`
abbrev pub is_word : ℕ → Bool
is_word c = is_letter c || is_digit c || c == b'_'

unfoldable pub take_word : List ℕ → List ℕ
take_word [] = []
take_word (c ∷ s) = let rest = take_word s in if is_word c then upper c ∷ rest else []

-- firstWord, in upper case. A word does not start with a digit.
unfoldable pub first_word : List ℕ → List ℕ
unfolding take_word
first_word [] = []
first_word (c ∷ s) =
    let rest = first_word s in
    if is_space c || c == b'(' then rest else if is_digit c then [] else take_word (c ∷ s)

-- The text behind the last colon and space.
unfoldable pub behind_colon : List ℕ → Option (List ℕ)
behind_colon [] = none
behind_colon (c ∷ s) = elim (behind_colon s) [
  | some t ↦ some t
  | none ↦ if c == b':' && starts b' ' s then some (tail s) else none
]

unfoldable pub starts_with : List ℕ → List ℕ → Bool
starts_with [] s = true
starts_with (p ∷ ps) [] = false
starts_with (p ∷ ps) (c ∷ s) = c == p && starts_with ps s

-- Is everything behind the first semicolon blank?
unfoldable pub one_statement : List ℕ → Bool
one_statement [] = true
one_statement (c ∷ s) =
    let rest = one_statement s in if c == b';' then not (any (λ d. not (is_space d)) s) else rest

-- The text behind the first semicolon.
unfoldable pub behind_semicolon : List ℕ → List ℕ
behind_semicolon [] = []
behind_semicolon (c ∷ s) = let rest = behind_semicolon s in if c == b';' then s else rest

-- escapeRegex
abbrev pub is_regex_special : ℕ → Bool
is_regex_special c = any (λ d. d == c) (codes ".*+?^${}()|[]\\")

unfoldable pub escape_regex : List ℕ → List ℕ
escape_regex [] = []
escape_regex (c ∷ s) =
    let rest = escape_regex s in if is_regex_special c then b'\\' ∷ c ∷ rest else c ∷ rest

abbrev pub contains : List String → List ℕ → Bool
contains words text = any (λ w. codes_eq (codes w) text) words
