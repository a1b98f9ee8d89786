-- ===== src/SqlSecurity/Tests.antt =====
-- src/utils/security/sqlSecurityValidator.ts: the scan and the validator at concrete queries.
use mcp_server_db2i.Prelude.{
  ℕ, Bool, true, false, Option, none, some, List, [], ◌∷◌, ◌++◌, ◌≡◌, refl, map,
}
use mcp_server_db2i.Prelude.Text.{codes, codes_eq, upper}
use mcp_server_db2i.SqlSecurity.{
  ScanText, Identifiers, unquote, mask, Unterminated, string, comment, normalize_for_scan,
}
use mcp_server_db2i.SqlSecurity.Automaton.{in_code, read}
use mcp_server_db2i.SqlSecurity.Reference.{normalize_for_scan-read}
use mcp_server_db2i.SqlSecurity.Engine.{is_db2_separator}
use mcp_server_db2i.SqlSecurity.Pieces.{
  nothing, letter, nested, Piece, code, line, block, literal, delimited, ended, open_comment, put,
  fits, pieces_scan,
}
use mcp_server_db2i.SqlSecurity.Pieces.Whole.{normalize_for_scan-put}
use mcp_server_db2i.SqlSecurity.Validator.{
  Node, text, object, field, no_fields, SecurityConfig, validate_query, validate_query_ast, is_nil,
}
use mcp_server_db2i.SqlSecurity.Validator.Hiding.{validate_query-put}

abbrev upper_case : List ℕ → List ℕ
upper_case s = map upper s

abbrev no_match : List ℕ → List ℕ → Bool
no_match pattern s = false

abbrev call : List ℕ → Option Node
call query = some (
    object (
      field (codes "type") (text (codes "function"))
        (field (codes "name") (text (codes "QSYS2.QCMDEXC")) no_fields)))

abbrev no_tree : List ℕ → Option Node
no_tree query = none

abbrev config : SecurityConfig
config = record { read_only = true; max_query_length = 100; forbidden_keywords = [] }

-- SELECT 'a;''b' /* /* ' */ ; */ "x"
abbrev query : List ℕ
query = codes "SELECT 'a;''b' /* /* ' */ ; */ \"x\""

abbrev pieces : List Piece
pieces =
    map code (codes "SELECT ")
    ++ literal (codes "a;'b")
      ∷ code 32
      ∷ block (letter 32 (nested (letter b'\'' nothing) (letter b';' nothing)))
      ∷ delimited (codes "x")
      ∷ code b';'
      ∷ line (codes " '") 10
      ∷ code b'D'
      ∷ []

query_scan :
    (normalize_for_scan is_db2_separator query mask).text ≡ codes "SELECT      QUOTED_NAME "
unfolding normalize_for_scan
query_scan = refl

query_accepted : (validate_query upper_case no_match no_tree query config).is_valid ≡ true
unfolding validate_query normalize_for_scan mcp_server_db2i.SqlSecurity.Engine.regex_checks
    mcp_server_db2i.SqlSecurity.Engine.data_change_shapes
    mcp_server_db2i.SqlSecurity.Engine.one_statement codes_eq
    mcp_server_db2i.SqlSecurity.Engine.first_word
query_accepted = refl

call_rejected : (validate_query upper_case no_match call query config).is_valid ≡ false
unfolding validate_query normalize_for_scan mcp_server_db2i.SqlSecurity.Validator.get_field codes_eq
    mcp_server_db2i.SqlSecurity.Validator.find_dangerous_functions
    mcp_server_db2i.SqlSecurity.Validator.unqualified_function_name
    mcp_server_db2i.SqlSecurity.Validator.is_blocked_function
call_rejected = refl

normalize_for_scan-read_example :
    normalize_for_scan is_db2_separator query mask ≡ read is_db2_separator mask in_code query
normalize_for_scan-read_example = normalize_for_scan-read is_db2_separator query mask

normalize_for_scan-put_example :
    normalize_for_scan is_db2_separator
      (put pieces (open_comment nothing (letter b'\'' nothing ∷ [])))
      mask
    ≡ pieces_scan is_db2_separator mask pieces (open_comment nothing (letter b'\'' nothing ∷ []))
unfolding fits mcp_server_db2i.SqlSecurity.is_comment_line_end
normalize_for_scan-put_example =
    normalize_for_scan-put is_db2_separator mask pieces
      (open_comment nothing (letter b'\'' nothing ∷ [])) refl

validate_query-put_example :
    (validate_query upper_case no_match no_tree (put pieces ended) config).is_valid ≡ false
unfolding fits mcp_server_db2i.SqlSecurity.is_comment_line_end
validate_query-put_example =
    validate_query-put upper_case no_match no_tree pieces ended config refl refl refl
