-- ===== src/SqlSecurity.antt =====
-- src/utils/security/sqlSecurityValidator.ts: normalizeForScan. A text is the list of its UTF-16 code
-- units. The loop over positions is the recursion of `scan` on fuel, which is the length of the query
-- and one more: every pass takes a character at least. Which characters are controls or separators is
-- a table of the JavaScript engine, so it is a parameter.
pub mod Automaton
pub mod Reference
pub mod Engine
pub mod Pieces
pub mod Validator
mod Tests
use mcp_server_db2i.Prelude.{
  ℕ, zero, suc, Bool, true, false, ◌&&◌, ◌||◌, Option, none, some, List, [], ◌∷◌, ◌++◌, ◌==◌,
  if◌then◌else◌, length,
}
use mcp_server_db2i.Prelude.Text.{codes}

pub data Unterminated : Type 0 where
  string identifier comment : Unterminated

pub record ScanText : Type 0 where
  pub text : List ℕ
  pub unterminated : Option Unterminated

pub data Identifiers : Type 0 where
  unquote mask : Identifiers

-- COMMENT_LINE_END
unfoldable pub is_comment_line_end : ℕ → Bool
is_comment_line_end c =
    c == 10 || c == 13 || c == 11 || c == 12 || c == 133 || c == 8232 || c == 8233

-- Is this the character at the position? No character is at the end.
abbrev pub starts : ℕ → List ℕ → Bool
starts q [] = false
starts q (c ∷ s) = c == q

abbrev pub tail : List ℕ → List ℕ
tail [] = []
tail (c ∷ s) = s

-- The inner loops: what they leave of the query, or `none` if it ended first.
unfoldable pub skip_line : List ℕ → List ℕ
unfolding is_comment_line_end
skip_line [] = []
skip_line (c ∷ s) = elim (is_comment_line_end c) [ true ↦ c ∷ s | false ↦ skip_line s ]

unfoldable pub skip_comment : ℕ → List ℕ → Option (List ℕ)
skip_comment zero s = some s
skip_comment (suc depth) [] = none
skip_comment (suc depth) (c ∷ []) = none
skip_comment (suc depth) (c ∷ d ∷ s) = elim (c == b'/' && d == b'*') [
  | true ↦ skip_comment (suc (suc depth)) s
  | false ↦ elim (c == b'*' && d == b'/') [
    | true ↦ skip_comment depth s
    | false ↦ skip_comment (suc depth) (d ∷ s)
  ]
]

unfoldable pub skip_string : List ℕ → Option (List ℕ)
skip_string [] = none
skip_string (c ∷ []) = elim (c == b'\'') [ true ↦ some [] | false ↦ none ]
skip_string (c ∷ d ∷ s) = elim (c == b'\'' && d == b'\'') [
  | true ↦ skip_string s
  | false ↦ elim (c == b'\'') [ true ↦ some (d ∷ s) | false ↦ skip_string (d ∷ s) ]
]

-- The identifier so far comes first.
unfoldable pub take_identifier : List ℕ → List ℕ → Option (List ℕ × List ℕ)
take_identifier ident [] = none
take_identifier ident (c ∷ []) = elim (c == b'"') [ true ↦ some (ident, []) | false ↦ none ]
take_identifier ident (c ∷ d ∷ s) = elim (c == b'"' && d == b'"') [
  | true ↦ take_identifier (ident ++ b'"' ∷ []) s
  | false ↦ elim (c == b'"') [
    | true ↦ some (ident, d ∷ s)
    | false ↦ take_identifier (ident ++ c ∷ []) (d ∷ s)
  ]
]

-- `out += s`, before the rest of the scan.
abbrev pub add : List ℕ → ScanText → ScanText
add s r = record r { text = s ++ r.text }

abbrev pub stop : Option Unterminated → ScanText
stop u = record { text = []; unterminated = u }

abbrev pub placed : Identifiers → List ℕ → List ℕ
placed unquote ident = ident
placed mask ident = codes " QUOTED_NAME "

-- After an inner loop.
abbrev pub resume : Unterminated → (List ℕ → ScanText) → Option (List ℕ) → ScanText
resume u go none = stop (some u)
resume u go (some rest) = add (32 ∷ []) (go rest)

abbrev pub resume_identifier :
    Identifiers → (List ℕ → ScanText) → Option (List ℕ × List ℕ) → ScanText
resume_identifier ids go none = stop (some identifier)
resume_identifier ids go (some (ident, rest)) = add (placed ids ident) (go rest)

module _ (is_db2_separator : ℕ → Bool) where
  abbrev pub plain : ℕ → ℕ
  plain c = if is_db2_separator c then 32 else c

  unfoldable pub scan : ℕ → Identifiers → List ℕ → ScanText
  unfolding skip_line skip_comment skip_string take_identifier
  scan zero ids s = stop none
  scan (suc n) ids [] = stop none
  scan (suc n) ids (c ∷ s) = elim (c == b'-' && starts b'-' s) [
    | true ↦ add (32 ∷ []) (scan n ids (skip_line (tail s)))
    | false ↦ elim (c == b'/' && starts b'*' s) [
      | true ↦ resume comment (scan n ids) (skip_comment 1 (tail s))
      | false ↦ elim (c == b'\'') [
        | true ↦ resume string (scan n ids) (skip_string s)
        | false ↦ elim (c == b'"') [
          | true ↦ resume_identifier ids (scan n ids) (take_identifier [] s)
          | false ↦ add (plain c ∷ []) (scan n ids s)
        ]
      ]
    ]
  ]

  unfoldable pub normalize_for_scan : List ℕ → Identifiers → ScanText
  unfolding scan
  normalize_for_scan query ids = scan (suc (length query)) ids query
