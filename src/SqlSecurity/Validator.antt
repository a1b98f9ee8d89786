-- ===== src/SqlSecurity/Validator.antt =====
-- src/utils/security/sqlSecurityValidator.ts: SqlSecurityValidator. The parser of node-sql-parser, the regular
-- expressions and the upper case of the JavaScript engine are parameters. A syntax tree is the object
-- that the parser returns; of its other values only the texts matter, and its `type` is a text.
pub mod Accepts
pub mod Hiding
use Prim.Native.String.{String}
use mcp_server_db2i.Prelude.{
  ℕ, zero, suc, ◌+◌, ◌/◌, ◌%◌, Bool, true, false, not, ◌&&◌, ◌||◌, Option, none, some, List, [],
  ◌∷◌, ◌++◌, ◌==◌, leb, ltb, any, map, if◌then◌else◌, length,
}
use mcp_server_db2i.Prelude.Text.{codes, codes_eq}
use mcp_server_db2i.SqlSecurity.{
  Unterminated, string, identifier, comment, ScanText, Identifiers, unquote, mask, starts, tail,
  normalize_for_scan,
}
use mcp_server_db2i.SqlSecurity.Engine.{
  is_db2_separator, Check, data_change_shapes, regex_checks, all_dangerous_operations,
  dangerous_functions, side_effect_function_prefixes, query_start_words, first_word, behind_colon,
  starts_with, one_statement, behind_semicolon, escape_regex, contains,
}

mutual
  pub data Node : Type 0 where
    text : List ℕ → Node
    scalar : Node
    object : Fields → Node
    array : Nodes → Node

  pub data Fields : Type 0 where
    no_fields : Fields
    field : List ℕ → Node → Fields → Fields

  pub data Nodes : Type 0 where
    no_nodes : Nodes
    node : Node → Nodes → Nodes

unfoldable pub get_field : List ℕ → Fields → Option Node
get_field key no_fields = none
get_field key (field k v fs) =
    let rest = get_field key fs in if codes_eq k key then some v else rest

abbrev pub text_of : Option Node → Option (List ℕ)
text_of (some (text t)) = some t
text_of (some scalar) = none
text_of (some (object fs)) = none
text_of (some (array ns)) = none
text_of none = none

abbrev pub value_of : Node → Option (List ℕ)
value_of (object fs) = text_of (get_field (codes "value") fs)
value_of (text t) = none
value_of scalar = none
value_of (array ns) = none

unfoldable pub last_node : Node → Nodes → Node
last_node v no_nodes = v
last_node v (node w ns) = last_node w ns

-- `name.split('.')`, its last part.
unfoldable pub behind_dot : List ℕ → List ℕ → List ℕ
behind_dot part [] = part
behind_dot part (c ∷ s) = behind_dot (if c == b'.' then s else part) s

-- The `value` of the last name, if the name is a list of names.
abbrev pub last_value : Option Node → Option (List ℕ)
last_value (some (array (node v ns))) = value_of (last_node v ns)
last_value (some (array no_nodes)) = none
last_value (some (text t)) = none
last_value (some scalar) = none
last_value (some (object fs)) = none
last_value none = none

abbrev pub first_of : Option (List ℕ) → Option (List ℕ) → Option (List ℕ)
first_of none y = y
first_of (some x) y = some x

unfoldable pub unqualified_function_name : Node → Option (List ℕ)
unfolding get_field last_node behind_dot
unqualified_function_name (text t) = some (behind_dot t t)
unqualified_function_name scalar = none
unqualified_function_name (array ns) = none
unqualified_function_name (object fs) =
    first_of (last_value (get_field (codes "name") fs))
      (first_of (text_of (get_field (codes "name") fs)) (text_of (get_field (codes "value") fs)))

-- A violation that the set of subjects has is left out, and the others join it.
abbrev pub has_subject : List ℕ → List (List ℕ) → Bool
has_subject subject reported = any (codes_eq subject) reported

pub record SecurityConfig : Type 0 where
  pub read_only : Bool
  pub max_query_length : ℕ
  pub forbidden_keywords : List (List ℕ)

pub data ValidationMethod : Type 0 where
  regex combined : ValidationMethod

pub record SecurityValidationResult : Type 0 where
  pub is_valid : Bool
  pub violations : List (List ℕ)
  pub validation_method : ValidationMethod

abbrev pub is_nil {ℓ} : {A : Type ℓ} → List A → Bool
is_nil [] = true
is_nil (x ∷ xs) = false

abbrev pub unterminated_violation : Unterminated → List ℕ
unterminated_violation string = codes "Query has an unterminated string"
unterminated_violation identifier = codes "Query has an unterminated identifier"
unterminated_violation comment = codes "Query has an unterminated comment"

abbrev pub rejected : List ℕ → SecurityValidationResult
rejected violation = record {
  is_valid = false;
  violations = violation ∷ [];
  validation_method = regex;
}

-- A number in decimal: the fuel is one more than the number.
unfoldable pub decimal : ℕ → ℕ → List ℕ
decimal zero n = []
decimal (suc fuel) n =
    let rest = decimal fuel (n / 10) in
    if ltb n 10 then (48 + n) ∷ [] else rest ++ (48 + n % 10) ∷ []

unfoldable pub length_violation : ℕ → List ℕ
unfolding decimal
length_violation max =
    codes "Query exceeds maximum length of "
    ++ decimal (suc max) max
    ++ codes " characters (QUERY_MAX_LENGTH). Split the work into smaller queries, "
    ++ codes "or join to a table instead of listing many values inline."

module _ (to_upper_case : List ℕ → List ℕ) (matches : List ℕ → List ℕ → Bool)
    (astify : List ℕ → Option Node) where
  unfoldable pub is_blocked_function : List ℕ → Bool
  is_blocked_function name =
      contains dangerous_functions (to_upper_case name)
      || any (λ p. starts_with (codes p) (to_upper_case name)) side_effect_function_prefixes

  -- The function that a node calls, if it is blocked.
  abbrev pub blocked_call : Option (List ℕ) → List (List ℕ)
  blocked_call none = []
  blocked_call (some name) =
      if not (is_nil name) && is_blocked_function name then to_upper_case name ∷ [] else []

  abbrev pub called : Option Node → Option (List ℕ)
  called none = none
  called (some name) = unqualified_function_name name

  abbrev pub is_function : Option (List ℕ) → Bool
  is_function none = false
  is_function (some type) = codes_eq type (codes "function")

  abbrev pub function_of : Fields → List (List ℕ)
  function_of fs =
      if is_function (text_of (get_field (codes "type") fs))
      then blocked_call (called (get_field (codes "name") fs))
      else []

  -- findDangerousFunctionsInAST
  unfoldable mutual
    pub find_dangerous_functions : Node → List (List ℕ)
    find_dangerous_functions (text t) = []
    find_dangerous_functions scalar = []
    find_dangerous_functions (object fs) = function_of fs ++ find_in_fields fs
    find_dangerous_functions (array ns) = find_in_nodes ns

    pub find_in_fields : Fields → List (List ℕ)
    find_in_fields no_fields = []
    find_in_fields (field k v fs) = find_dangerous_functions v ++ find_in_fields fs

    pub find_in_nodes : Nodes → List (List ℕ)
    find_in_nodes no_nodes = []
    find_in_nodes (node v ns) = find_dangerous_functions v ++ find_in_nodes ns

  abbrev pub type_violation : Option (List ℕ) → List (List ℕ)
  type_violation none = []
  type_violation (some type) =
      if any (λ op. codes_eq (to_upper_case (codes op)) (to_upper_case (to_upper_case type)))
        all_dangerous_operations
      then (codes "Dangerous statement type: " ++ to_upper_case type) ∷ []
      else []

  abbrev pub function_violations : Node → List (List ℕ)
  function_violations v =
      map (λ (f : List ℕ). codes "Dangerous function detected: " ++ f) (find_dangerous_functions v)

  abbrev pub statement_violations : Node → List (List ℕ)
  statement_violations (text t) = []
  statement_violations scalar = []
  statement_violations (object fs) =
      type_violation (text_of (get_field (codes "type") fs)) ++ function_violations (object fs)
  statement_violations (array ns) = function_violations (array ns)

  unfoldable pub statements_violations : Nodes → List (List ℕ)
  statements_violations no_nodes = []
  statements_violations (node v ns) = statement_violations v ++ statements_violations ns

  abbrev pub multiple : Nodes → List (List ℕ)
  multiple no_nodes = []
  multiple (node v no_nodes) = []
  multiple (node v (node w ns)) =
      codes "Multiple statements detected - potential SQL injection" ∷ []

  abbrev pub ast_of : Option Node → List (List ℕ)
  ast_of none = []
  ast_of (some (array ns)) = statements_violations ns ++ multiple ns
  ast_of (some (object fs)) = statement_violations (object fs)
  ast_of (some (text t)) = []
  ast_of (some scalar) = []

  -- validateQueryAST: no violation where the parser gives up.
  unfoldable pub validate_query_ast : List ℕ → List (List ℕ)
  validate_query_ast query = ast_of (astify query)

  unfoldable pub failed_checks : List Check → List ℕ → List (List ℕ)
  failed_checks [] query = []
  failed_checks ((pattern, message) ∷ checks) query =
      let rest = failed_checks checks query in
      if matches pattern query then message ∷ rest else rest

  abbrev pub second_violation : List ℕ → List (List ℕ)
  second_violation query =
      if one_statement query
      then []
      else (codes "Multiple statements detected"
          ++ (if is_nil (first_word (behind_semicolon query))
              then []
              else codes ": a second statement starts with "
                ++ first_word (behind_semicolon query)))
        ∷ []

  abbrev pub start_violation : List ℕ → List (List ℕ)
  start_violation query =
      if contains query_start_words (first_word query)
      then []
      else (codes "Query must start with SELECT, WITH or VALUES"
          ++ (if is_nil (first_word query) then [] else codes ", not: " ++ first_word query))
        ∷ []

  unfoldable pub validate_query_regex : List ℕ → List ℕ → List (List ℕ)
  unfolding failed_checks
  validate_query_regex query masked =
      failed_checks regex_checks query
      ++ map (λ (operation : List ℕ). codes "Dangerous operation detected: " ++ operation)
          (failed_checks data_change_shapes masked)
      ++ second_violation query
      ++ start_violation query

  abbrev pub keyword_check : List ℕ → Check
  keyword_check keyword = (
    codes "\\b" ++ escape_regex keyword ++ codes "\\b",
    codes "Forbidden keyword detected: " ++ keyword,
  )

  unfoldable pub check_forbidden_keywords : List ℕ → List (List ℕ) → List (List ℕ)
  unfolding failed_checks
  check_forbidden_keywords query keywords = failed_checks (map keyword_check keywords) query

  abbrev pub subject_of : List ℕ → Option (List ℕ) → List ℕ
  subject_of violation none = to_upper_case violation
  subject_of violation (some t) = to_upper_case t

  unfoldable pub violation_subject : List ℕ → List ℕ
  violation_subject violation =
      if starts_with (codes "Multiple statements") violation
      then codes "MULTIPLE STATEMENTS"
      else subject_of violation (behind_colon violation)

  unfoldable pub not_reported : List (List ℕ) → List (List ℕ) → List (List ℕ)
  unfolding violation_subject
  not_reported reported [] = []
  not_reported reported (v ∷ vs) = elim (has_subject (violation_subject v) reported) [
    | true ↦ not_reported reported vs
    | false ↦ v ∷ not_reported (violation_subject v ∷ reported) vs
  ]

  abbrev pub finish : SecurityConfig → List ℕ → List (List ℕ) → SecurityValidationResult
  finish config query found =
      let violations =
        found
        ++ check_forbidden_keywords (normalize_for_scan is_db2_separator query unquote).text
            config.forbidden_keywords in
      record { is_valid = is_nil violations; violations = violations; validation_method = combined }

  abbrev pub read_only_violations : List ℕ → List (List ℕ)
  read_only_violations query =
      let ast = validate_query_ast query in
      ast
      ++ not_reported (map violation_subject ast) (
          validate_query_regex (normalize_for_scan is_db2_separator query unquote).text
            (normalize_for_scan is_db2_separator query mask).text)

  abbrev pub validate_terminated :
      SecurityConfig → List ℕ → Option Unterminated → SecurityValidationResult
  validate_terminated config query (some u) = rejected (unterminated_violation u)
  validate_terminated config query none = finish config query (read_only_violations query)

  unfoldable pub validate_query : List ℕ → SecurityConfig → SecurityValidationResult
  unfolding validate_query_ast validate_query_regex check_forbidden_keywords not_reported
  validate_query query config =
      if ltb config.max_query_length (length query)
      then rejected (length_violation config.max_query_length)
      else if config.read_only
      then validate_terminated config query
          (normalize_for_scan is_db2_separator query unquote).unterminated
      else finish config query []
