-- ===== src/SqlSecurity/Automaton.antt =====
-- src/utils/security/sqlSecurityValidator.ts: a reference for normalizeForScan that reads one character at a
-- time and has no inner loops and no fuel.
use mcp_server_db2i.Prelude.{
  ℕ, zero, suc, Bool, true, false, ◌&&◌, ◌||◌, none, some, List, [], ◌∷◌, ◌++◌, ◌≡◌, refl, sym, inl,
  inr, arith, ◌==◌, Bool-cases,
}
use mcp_server_db2i.SqlSecurity.{
  string, identifier, comment, ScanText, Identifiers, is_comment_line_end, starts, skip_line,
  skip_comment, skip_string, take_identifier, add, stop, placed, resume, resume_identifier, plain,
}

-- What the next character belongs to. A comment has the depth below its first; `after` drops one
-- character, the second of a pair.
pub data Mode : Type 0 where
  in_code : Mode
  in_line : Mode
  in_comment : ℕ → Mode
  in_string : Mode
  in_identifier : List ℕ → Mode
  after : Mode → Mode

abbrev pub leave_comment : ℕ → Mode
leave_comment zero = in_code
leave_comment (suc depth) = in_comment depth

abbrev pub left_space : ℕ → List ℕ
left_space zero = 32 ∷ []
left_space (suc depth) = []

module _ (is_db2_separator : ℕ → Bool) where
  unfoldable pub read : Identifiers → Mode → List ℕ → ScanText
  unfolding is_comment_line_end
  read ids in_code [] = stop none
  read ids in_code (c ∷ s) = elim (c == b'-' && starts b'-' s) [
    | true ↦ add (32 ∷ []) (read ids in_line s)
    | false ↦ elim (c == b'/' && starts b'*' s) [
      | true ↦ read ids (after (in_comment 0)) s
      | false ↦ elim (c == b'\'') [
        | true ↦ read ids in_string s
        | false ↦ elim (c == b'"') [
          | true ↦ read ids (in_identifier []) s
          | false ↦ add (plain is_db2_separator c ∷ []) (read ids in_code s)
        ]
      ]
    ]
  ]
  read ids in_line [] = stop none
  read ids in_line (c ∷ s) = elim (is_comment_line_end c) [
    | true ↦ add (plain is_db2_separator c ∷ []) (read ids in_code s)
    | false ↦ read ids in_line s
  ]
  read ids (in_comment depth) [] = stop (some comment)
  read ids (in_comment depth) (c ∷ s) = elim (c == b'/' && starts b'*' s) [
    | true ↦ read ids (after (in_comment (suc depth))) s
    | false ↦ elim (c == b'*' && starts b'/' s) [
      | true ↦ add (left_space depth) (read ids (after (leave_comment depth)) s)
      | false ↦ read ids (in_comment depth) s
    ]
  ]
  read ids in_string [] = stop (some string)
  read ids in_string (c ∷ s) = elim (c == b'\'') [
    | true ↦ elim (starts b'\'' s) [
      | true ↦ read ids (after in_string) s
      | false ↦ add (32 ∷ []) (read ids in_code s)
    ]
    | false ↦ read ids in_string s
  ]
  read ids (in_identifier ident) [] = stop (some identifier)
  read ids (in_identifier ident) (c ∷ s) = elim (c == b'"') [
    | true ↦ elim (starts b'"' s) [
      | true ↦ read ids (after (in_identifier (ident ++ b'"' ∷ []))) s
      | false ↦ add (placed ids ident) (read ids in_code s)
    ]
    | false ↦ read ids (in_identifier (ident ++ c ∷ [])) s
  ]
  read ids (after m) [] = stop none
  read ids (after m) (c ∷ s) = read ids m s

  -- A character of the code that opens nothing.
  abbrev pub is_opener : ℕ → Bool
  is_opener c = c == b'-' || c == b'/' || c == b'\'' || c == b'"'

  pub plain-read :
      (ids : Identifiers) (c : ℕ) (s : List ℕ)
      → c == b'-' && starts b'-' s ≡ false
      → c == b'/' && starts b'*' s ≡ false
      → c == b'\'' ≡ false
      → c == b'"' ≡ false
      → read ids in_code (c ∷ s) ≡ add (plain is_db2_separator c ∷ []) (read ids in_code s)
  unfolding read
  plain-read ids c s h i j k = rw (h, i, j, k, read) refl

  line_end_plain :
      (c : ℕ)
      → is_comment_line_end c ≡ true
      → (c == b'-' ≡ false) × (c == b'/' ≡ false) × (c == b'\'' ≡ false) × (c == b'"' ≡ false)
  unfolding is_comment_line_end
  line_end_plain c h = ground arith

  pub skip_line-read :
      (ids : Identifiers) (s : List ℕ) → read ids in_line s ≡ read ids in_code (skip_line s)
  unfolding read skip_line
  skip_line-read ids [] = refl
  skip_line-read ids (c ∷ s) = elim (Bool-cases (is_comment_line_end c)) [
    | inl ends ↦
        let q = line_end_plain c ends in
        rw (ends, skip_line, read)
          (sym (plain-read ids c s (ground (arith, q)) (ground (arith, q)) q.2 q.3))
    | inr inside ↦ rw (inside, skip_line, read) (skip_line-read ids s)
  ]

  closed-read :
      (ids : Identifiers) (depth : ℕ) (s : List ℕ)
      → ((d : ℕ)
          → read ids (in_comment d) s ≡ resume comment (read ids in_code) (skip_comment (suc d) s))
      → add (left_space depth) (read ids (leave_comment depth) s)
        ≡ resume comment (read ids in_code) (skip_comment depth s)
  unfolding skip_comment
  closed-read ids zero s h = refl
  closed-read ids (suc d) s h = h d

  pub skip_comment-read :
      (ids : Identifiers) (depth : ℕ) (s : List ℕ)
      → read ids (in_comment depth) s
        ≡ resume comment (read ids in_code) (skip_comment (suc depth) s)
  unfolding read skip_comment
  skip_comment-read ids depth [] = refl
  skip_comment-read ids depth (c ∷ []) = ground arith
  skip_comment-read ids depth (c ∷ d ∷ s) = elim (Bool-cases (c == b'/' && d == b'*')) [
    | inl opens ↦ rw (opens, read, skip_comment) (skip_comment-read ids (suc depth) s)
    | inr other ↦ elim (Bool-cases (c == b'*' && d == b'/')) [
      | inl closes ↦
          rw (other, closes, read, skip_comment)
            (closed-read ids depth s (λ n. skip_comment-read ids n s))
      | inr inside ↦ rw (other, inside, read, skip_comment) (skip_comment-read ids depth (d ∷ s))
    ]
  ]

  pub skip_string-read :
      (ids : Identifiers) (s : List ℕ)
      → read ids in_string s ≡ resume string (read ids in_code) (skip_string s)
  unfolding read skip_string
  skip_string-read ids [] = refl
  skip_string-read ids (c ∷ []) = elim (Bool-cases (c == b'\'')) [
    | inl quote ↦ rw (quote, read, skip_string) refl
    | inr other ↦ rw (other, read, skip_string) refl
  ]
  skip_string-read ids (c ∷ d ∷ s) = elim (Bool-cases (c == b'\'')) [
    | inr other ↦ rw (other, read, skip_string) (rw other (skip_string-read ids (d ∷ s)))
    | inl quote ↦ elim (Bool-cases (d == b'\'')) [
      | inl twice ↦ rw (quote, twice, read, skip_string) (skip_string-read ids s)
      | inr once ↦ rw (quote, once, read, skip_string) (rw quote refl)
    ]
  ]

  pub take_identifier-read :
      (ids : Identifiers) (ident s : List ℕ)
      → read ids (in_identifier ident) s
        ≡ resume_identifier ids (read ids in_code) (take_identifier ident s)
  unfolding read take_identifier
  take_identifier-read ids ident [] = refl
  take_identifier-read ids ident (c ∷ []) = elim (Bool-cases (c == b'"')) [
    | inl quote ↦ rw (quote, read, take_identifier) refl
    | inr other ↦ rw (other, read, take_identifier) refl
  ]
  take_identifier-read ids ident (c ∷ d ∷ s) = elim (Bool-cases (c == b'"')) [
    | inr other ↦
        rw (other, read, take_identifier)
          (rw other (take_identifier-read ids (ident ++ c ∷ []) (d ∷ s)))
    | inl quote ↦ elim (Bool-cases (d == b'"')) [
      | inl twice ↦
          rw (quote, twice, read, take_identifier) (take_identifier-read ids (ident ++ b'"' ∷ []) s)
      | inr once ↦ rw (quote, once, read, take_identifier) (rw quote refl)
    ]
  ]
