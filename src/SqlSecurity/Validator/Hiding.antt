-- ===== src/SqlSecurity/Validator/Hiding.antt =====
-- src/utils/security/sqlSecurityValidator.ts: a second statement behind literals, comments and names.
use mcp_server_db2i.Prelude.{
  ℕ, Bool, true, false, not, ◌&&◌, ◌||◌, Option, List, [], ◌∷◌, ◌++◌, ◌≡◌, ◌∙◌, refl, ap, inl, inr,
  arith, ◌==◌, leb, any, length, Bool-cases,
}
use mcp_server_db2i.Prelude.Text.{is_space}
use mcp_server_db2i.SqlSecurity.{ScanText, unquote, mask, plain, normalize_for_scan}
use mcp_server_db2i.SqlSecurity.Engine.{
  is_db2_separator, one_statement, regex_checks, data_change_shapes, contains, query_start_words,
  first_word,
}
use mcp_server_db2i.SqlSecurity.Pieces.{
  Piece, code, line, block, literal, delimited, End, put, fits, pieces_scan,
}
use mcp_server_db2i.SqlSecurity.Pieces.Whole.{normalize_for_scan-put}
use mcp_server_db2i.SqlSecurity.Validator.{
  Node, SecurityConfig, validate_query, validate_query_ast, is_nil,
}
use mcp_server_db2i.SqlSecurity.Validator.Accepts.{
  validate_query-is_valid, is_terminated, keyword_pattern,
}

abbrev pub is_visible : ℕ → Bool
is_visible c = not (is_space c || is_db2_separator c)

-- Does the code have a character that is no blank?
abbrev pub has_code : List Piece → Bool
has_code [] = false
has_code (code c ∷ ps) = is_visible c || has_code ps
has_code (line body e ∷ ps) = has_code ps
has_code (block i ∷ ps) = has_code ps
has_code (literal body ∷ ps) = has_code ps
has_code (delimited body ∷ ps) = has_code ps

-- Does it have one behind a semicolon?
abbrev pub has_second : List Piece → Bool
has_second [] = false
has_second (code c ∷ ps) = c == b';' && has_code ps || has_second ps
has_second (line body e ∷ ps) = has_second ps
has_second (block i ∷ ps) = has_second ps
has_second (literal body ∷ ps) = has_second ps
has_second (delimited body ∷ ps) = has_second ps

abbrev pub scanned : List Piece → End → List ℕ
scanned ps e = (pieces_scan is_db2_separator unquote ps e).text

not_or : (a b : Bool) → not (a || b) ≡ true → (a ≡ false) × (b ≡ false)
not_or a b h = ground arith

or_true : (a b : Bool) → b ≡ true → (a || b) ≡ true
or_true a b h = ground arith

and_true : (a b : Bool) → (a && b) ≡ true → (a ≡ true) × (b ≡ true)
and_true a b h = ground arith

not-false : (a : Bool) → not a ≡ false → a ≡ true
not-false a h = ground arith

one_fails : (a t n x y w k : Bool) → (a && ((t && (n && (x && (y && (false && w))))) && k)) ≡ false
one_fails a t n x y w k = ground arith

visible_behind :
    (t s : List ℕ)
    → any (λ d. not (is_space d)) s ≡ true
    → any (λ d. not (is_space d)) (t ++ s) ≡ true
visible_behind [] s h = h
visible_behind (c ∷ t) s h = elim (Bool-cases (is_space c)) [
  | inl blank ↦ rw blank (visible_behind t s h)
  | inr other ↦ rw other refl
]

second_visible : (s : List ℕ) → one_statement s ≡ false → any (λ d. not (is_space d)) s ≡ true
unfolding one_statement
second_visible [] h = cc
second_visible (c ∷ s) h = elim (Bool-cases (c == b';')) [
  | inl semicolon ↦ or_true (not (is_space c)) _ (not-false _ (rw (semicolon, one_statement) at h))
  | inr other ↦ or_true (not (is_space c)) _ (second_visible s (rw (other, one_statement) at h))
]

second_behind : (t s : List ℕ) → one_statement s ≡ false → one_statement (t ++ s) ≡ false
unfolding one_statement
second_behind [] s h = h
second_behind (c ∷ t) s h = elim (Bool-cases (c == b';')) [
  | inl semicolon ↦ rw (semicolon, one_statement) (ap not (visible_behind t s (second_visible s h)))
  | inr other ↦ rw (other, one_statement) (second_behind t s h)
]

visible_plain :
    (c : ℕ) (s : List ℕ)
    → is_visible c ≡ true
    → any (λ d. not (is_space d)) (plain is_db2_separator c ∷ s) ≡ true
visible_plain c s h = let q = not_or (is_space c) (is_db2_separator c) h in rw q.1 (rw q.0 refl)

scanned_visible :
    (ps : List Piece) (e : End)
    → has_code ps ≡ true
    → any (λ d. not (is_space d)) (scanned ps e) ≡ true
unfolding pieces_scan
scanned_visible [] e h = cc
scanned_visible (code c ∷ ps) e h = elim (Bool-cases (is_visible c)) [
  | inl visible ↦ visible_plain c (scanned ps e) visible
  | inr blank ↦
      visible_behind (plain is_db2_separator c ∷ []) (scanned ps e)
        (scanned_visible ps e (rw blank at h))
]
scanned_visible (line body f ∷ ps) e h =
    visible_behind (32 ∷ plain is_db2_separator f ∷ []) (scanned ps e) (scanned_visible ps e h)
scanned_visible (block i ∷ ps) e h = scanned_visible ps e h
scanned_visible (literal body ∷ ps) e h = scanned_visible ps e h
scanned_visible (delimited body ∷ ps) e h =
    visible_behind body (scanned ps e) (scanned_visible ps e h)

semicolon_second :
    (c : ℕ) (s : List ℕ)
    → c == b';' ≡ true
    → any (λ d. not (is_space d)) s ≡ true
    → one_statement (plain is_db2_separator c ∷ s) ≡ false
unfolding one_statement
semicolon_second c s h i =
    let q : c ≡ 59 = ground (arith, h) in
    ap (λ (d : ℕ). one_statement (plain is_db2_separator d ∷ s)) q ∙ ap not i

scanned_second :
    (ps : List Piece) (e : End) → has_second ps ≡ true → one_statement (scanned ps e) ≡ false
unfolding pieces_scan one_statement
scanned_second [] e h = cc
scanned_second (code c ∷ ps) e h = elim (Bool-cases (c == b';' && has_code ps)) [
  | inl here ↦
      let q = and_true (c == b';') (has_code ps) here in
      semicolon_second c (scanned ps e) q.0 (scanned_visible ps e q.1)
  | inr there ↦
      second_behind (plain is_db2_separator c ∷ []) (scanned ps e)
        (scanned_second ps e (rw there at h))
]
scanned_second (line body f ∷ ps) e h =
    second_behind (32 ∷ plain is_db2_separator f ∷ []) (scanned ps e) (scanned_second ps e h)
scanned_second (block i ∷ ps) e h = scanned_second ps e h
scanned_second (literal body ∷ ps) e h = scanned_second ps e h
scanned_second (delimited body ∷ ps) e h = second_behind body (scanned ps e) (scanned_second ps e h)

-- A query with a semicolon in its code and, anywhere behind it, a character of the code that is no
-- blank is rejected in read-only mode: no literal, comment or delimited identifier, before, between
-- or behind them, hides the second statement, whatever the parser and the patterns say.
pub validate_query-put :
    (to_upper_case : List ℕ → List ℕ) (matches : List ℕ → List ℕ → Bool)
    (astify : List ℕ → Option Node) (ps : List Piece) (e : End) (config : SecurityConfig)
    → config.read_only ≡ true
    → fits ps e ≡ true
    → has_second ps ≡ true
    → (validate_query to_upper_case matches astify (put ps e) config).is_valid ≡ false
validate_query-put to_upper_case matches astify ps e config only f h =
    let two : one_statement (normalize_for_scan is_db2_separator (put ps e) unquote).text ≡ false =
      ap (λ (s : ScanText). one_statement s.text)
        (normalize_for_scan-put is_db2_separator unquote ps e f)
      ∙ scanned_second ps e h in
    let text = (normalize_for_scan is_db2_separator (put ps e) unquote).text in
    let masked = (normalize_for_scan is_db2_separator (put ps e) mask).text in
    validate_query-is_valid to_upper_case matches astify (put ps e) config
    ∙ rw (only, two)
        (one_fails (leb (length (put ps e)) config.max_query_length)
          (is_terminated (normalize_for_scan is_db2_separator (put ps e) unquote).unterminated)
          (is_nil (validate_query_ast to_upper_case matches astify (put ps e)))
          (not (any (λ c. matches c.0 text) regex_checks))
          (not (any (λ c. matches c.0 masked) data_change_shapes))
          (contains query_start_words (first_word text))
          (not (
            any (λ k. matches (keyword_pattern to_upper_case matches astify k) text)
              config.forbidden_keywords)))
