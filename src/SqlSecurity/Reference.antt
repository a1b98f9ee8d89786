-- ===== src/SqlSecurity/Reference.antt =====
-- src/utils/security/sqlSecurityValidator.ts: normalizeForScan and its reference on every query.
use mcp_server_db2i.Prelude.{
  ℕ, zero, suc, Bool, true, false, ◌&&◌, Option, none, some, List, [], ◌∷◌, ◌++◌, ◌≡◌, ◌∙◌, refl,
  sym, ap, inl, inr, arith, ◌==◌, length, Bool-cases, leb, ltb,
}
use mcp_server_db2i.SqlSecurity.{
  Unterminated, string, comment, ScanText, Identifiers, is_comment_line_end, starts, tail,
  skip_line, skip_comment, skip_string, take_identifier, add, placed, resume, resume_identifier,
  plain, scan, normalize_for_scan,
}
use mcp_server_db2i.SqlSecurity.Automaton.{
  Mode, in_code, in_line, in_comment, after, read, skip_line-read, skip_comment-read,
  skip_string-read, take_identifier-read,
}

leb-suc : (a b : ℕ) → leb a b ≡ true → leb a (suc b) ≡ true
leb-suc a b h = ground arith

leb_refl : (a : ℕ) → leb a a ≡ true
leb_refl a = ground arith

leb-ltb : (a b n : ℕ) → leb a b ≡ true → ltb b n ≡ true → ltb a n ≡ true
leb-ltb a b n h i = ground arith

-- No loop leaves more than it was given.
abbrev pub rest_length : Option (List ℕ) → ℕ
rest_length none = 0
rest_length (some rest) = length rest

abbrev pub rest_length₂ : Option (List ℕ × List ℕ) → ℕ
rest_length₂ none = 0
rest_length₂ (some (ident, rest)) = length rest

skip_line_shorter : (s : List ℕ) → leb (length (skip_line s)) (length s) ≡ true
unfolding skip_line
skip_line_shorter [] = refl
skip_line_shorter (c ∷ s) = ground (arith, skip_line_shorter s)

skip_comment_shorter :
    (depth : ℕ) (s : List ℕ) → leb (rest_length (skip_comment depth s)) (length s) ≡ true
unfolding skip_comment
skip_comment_shorter zero s = ground arith
skip_comment_shorter (suc depth) [] = refl
skip_comment_shorter (suc depth) (c ∷ []) = refl
skip_comment_shorter (suc depth) (c ∷ d ∷ s) = ground (
  arith,
  skip_comment_shorter (suc (suc depth)) s,
  skip_comment_shorter depth s,
  skip_comment_shorter (suc depth) (d ∷ s),
)

skip_string_shorter : (s : List ℕ) → leb (rest_length (skip_string s)) (length s) ≡ true
unfolding skip_string
skip_string_shorter [] = refl
skip_string_shorter (c ∷ []) = ground arith
skip_string_shorter (c ∷ d ∷ s) =
    let twice = skip_string_shorter s in
    let other = skip_string_shorter (d ∷ s) in
    elim (Bool-cases (c == b'\'' && d == b'\'')) [
      | inl both ↦ rw (both, skip_string) (leb-suc _ _ (leb-suc _ _ twice))
      | inr once ↦
          rw (once, skip_string)
            (elim (Bool-cases (c == b'\'')) [
              | inl quote ↦ rw quote (leb-suc _ _ (leb_refl (suc (length s))))
              | inr inside ↦ rw inside (leb-suc _ _ other)
            ])
    ]

take_identifier_shorter :
    (ident s : List ℕ) → leb (rest_length₂ (take_identifier ident s)) (length s) ≡ true
unfolding take_identifier
take_identifier_shorter ident [] = refl
take_identifier_shorter ident (c ∷ []) = ground arith
take_identifier_shorter ident (c ∷ d ∷ s) = ground (
  arith,
  take_identifier_shorter (ident ++ b'"' ∷ []) s,
  take_identifier_shorter (ident ++ c ∷ []) (d ∷ s),
)

module _ (is_db2_separator : ℕ → Bool) where
  -- What the scan does after a loop, if it is right on what the loop leaves.
  resumed :
      (u : Unterminated) (f g : List ℕ → ScanText) (r : Option (List ℕ)) (n : ℕ)
      → ((s : List ℕ) → ltb (length s) n ≡ true → f s ≡ g s)
      → ltb (rest_length r) n ≡ true
      → resume u f r ≡ resume u g r
  resumed u f g none n h short = refl
  resumed u f g (some rest) n h short = ap (add (32 ∷ [])) (h rest short)

  resumed_identifier :
      (ids : Identifiers) (f g : List ℕ → ScanText) (r : Option (List ℕ × List ℕ)) (n : ℕ)
      → ((s : List ℕ) → ltb (length s) n ≡ true → f s ≡ g s)
      → ltb (rest_length₂ r) n ≡ true
      → resume_identifier ids f r ≡ resume_identifier ids g r
  resumed_identifier ids f g none n h short = refl
  resumed_identifier ids f g (some (ident, rest)) n h short =
      ap (add (placed ids ident)) (h rest short)

  starts-tail : (s : List ℕ) (q : ℕ) → starts q s ≡ true → suc (length (tail s)) ≡ length s
  starts-tail [] q h = cc
  starts-tail (c ∷ s) q h = refl

  after-read :
      (ids : Identifiers) (m : Mode) (s : List ℕ) (q : ℕ)
      → starts q s ≡ true
      → read is_db2_separator ids (after m) s ≡ read is_db2_separator ids m (tail s)
  unfolding read
  after-read ids m [] q h = cc
  after-read ids m (c ∷ s) q h = refl

  line_start-read :
      (ids : Identifiers) (s : List ℕ)
      → starts b'-' s ≡ true
      → read is_db2_separator ids in_line s ≡ read is_db2_separator ids in_line (tail s)
  unfolding read is_comment_line_end
  line_start-read ids [] h = cc
  line_start-read ids (c ∷ s) h = ground arith

  tail_shorter : (s : List ℕ) → leb (length (tail s)) (length s) ≡ true
  tail_shorter [] = refl
  tail_shorter (c ∷ s) = ground arith

  quoted-scan :
      (n : ℕ) (ids : Identifiers) (c : ℕ) (s : List ℕ)
      → ((r : List ℕ)
          → ltb (length r) n ≡ true
          → scan is_db2_separator n ids r ≡ read is_db2_separator ids in_code r)
      → ltb (length s) n ≡ true
      → c == b'-' && starts b'-' s ≡ false
      → c == b'/' && starts b'*' s ≡ false
      → scan is_db2_separator (suc n) ids (c ∷ s) ≡ read is_db2_separator ids in_code (c ∷ s)
  unfolding scan read
  quoted-scan n ids c s rec short h i = elim (Bool-cases (c == b'\'')) [
    | inl quote ↦
        rw (h, i, quote, scan, read)
          (resumed string _ _ (skip_string s) n rec (leb-ltb _ _ n (skip_string_shorter s) short)
            ∙ sym (skip_string-read is_db2_separator ids s))
    | inr other ↦ elim (Bool-cases (c == b'"')) [
      | inl delimited ↦
          rw (h, i, other, delimited, scan, read)
            (resumed_identifier ids _ _ (take_identifier [] s) n rec
                (leb-ltb _ _ n (take_identifier_shorter [] s) short)
              ∙ sym (take_identifier-read is_db2_separator ids [] s))
      | inr code ↦
          rw (h, i, other, code, scan, read)
            (ap (add (plain is_db2_separator c ∷ [])) (rec s short))
    ]
  ]

  scan-read :
      (n : ℕ) (ids : Identifiers) (s : List ℕ)
      → ltb (length s) n ≡ true
      → scan is_db2_separator n ids s ≡ read is_db2_separator ids in_code s
  unfolding scan read
  scan-read zero ids s short = absurd (ground (arith, short))
  scan-read (suc n) ids [] short = refl
  scan-read (suc n) ids (c ∷ s) short =
      let rec = scan-read n ids in
      let within : ltb (length s) n ≡ true = ground (arith, short) in
      let less = tail_shorter s in
      elim (Bool-cases (c == b'-' && starts b'-' s)) [
        | inl line ↦
            rw (line, scan, read)
              (ap (add (32 ∷ [])) (
                rec (skip_line (tail s)) (ground (arith, within, less, skip_line_shorter (tail s)))
                ∙ sym (
                    line_start-read ids s (ground (arith, line))
                    ∙ skip_line-read is_db2_separator ids (tail s))))
        | inr code ↦ elim (Bool-cases (c == b'/' && starts b'*' s)) [
          | inl opens ↦
              rw (code, opens, scan, read)
                (resumed comment _ _ (skip_comment 1 (tail s)) n rec
                    (ground (arith, within, less, skip_comment_shorter 1 (tail s)))
                  ∙ sym (
                      after-read ids (in_comment 0) s b'*' (ground (arith, opens))
                      ∙ skip_comment-read is_db2_separator ids 0 (tail s)))
          | inr other ↦ quoted-scan n ids c s rec within code other
        ]
      ]

  -- On every query, terminated or not, the loops over positions give what the reference reads one
  -- character at a time: the same text, and the same literal or comment left open. So the loops
  -- always end, and each comment, string and identifier is skipped as a whole.
  pub normalize_for_scan-read :
      (query : List ℕ) (ids : Identifiers)
      → normalize_for_scan is_db2_separator query ids ≡ read is_db2_separator ids in_code query
  unfolding normalize_for_scan
  normalize_for_scan-read query ids = scan-read (suc (length query)) ids query (ground arith)
