-- ===== src/SqlSecurity/Pieces/Loops.antt =====
-- src/utils/security/sqlSecurityValidator.ts: the reference on one piece.
use mcp_server_db2i.Prelude.{
  ℕ, suc, Bool, true, false, ◌&&◌, none, some, List, [], ◌∷◌, ◌++◌, ◌≡◌, ◌∙◌, refl, sym, ap, inl,
  inr, arith, ◌==◌, any, Bool-cases,
}
use mcp_server_db2i.SqlSecurity.{
  string, identifier, comment, Identifiers, is_comment_line_end, starts, add, stop, placed, plain,
}
use mcp_server_db2i.SqlSecurity.Automaton.{
  in_code, in_line, in_comment, in_string, in_identifier, read,
}
use mcp_server_db2i.SqlSecurity.Pieces.{
  Inside, nothing, letter, nested, put_inside, put_doubled, put_open, fits_inside, fits_open,
}

append-nil : (xs : List ℕ) → xs ++ [] ≡ xs
append-nil [] = refl
append-nil (x ∷ xs) = ap (◌∷◌ x) (append-nil xs)

append-cons : (xs : List ℕ) (c : ℕ) (ys : List ℕ) → (xs ++ c ∷ []) ++ ys ≡ xs ++ c ∷ ys
append-cons [] c ys = refl
append-cons (x ∷ xs) c ys = ap (◌∷◌ x) (append-cons xs c ys)

module _ (is_db2_separator : ℕ → Bool) (ids : Identifiers) where
  pub line-read :
      (body : List ℕ) (e : ℕ) (s : List ℕ)
      → any is_comment_line_end body ≡ false
      → is_comment_line_end e ≡ true
      → read is_db2_separator ids in_line (body ++ e ∷ s)
        ≡ add (plain is_db2_separator e ∷ []) (read is_db2_separator ids in_code s)
  unfolding read
  line-read [] e s h i = rw (i, read) refl
  line-read (c ∷ body) e s h i = elim (Bool-cases (is_comment_line_end c)) [
    | inl ends ↦ absurd (ground (arith, h, ends))
    | inr inside ↦ rw (inside, read) (line-read body e s (ground (arith, h, inside)) i)
  ]

  pub last_line-read :
      (body : List ℕ)
      → any is_comment_line_end body ≡ false
      → read is_db2_separator ids in_line body ≡ stop none
  unfolding read
  last_line-read [] h = refl
  last_line-read (c ∷ body) h = elim (Bool-cases (is_comment_line_end c)) [
    | inl ends ↦ absurd (ground (arith, h, ends))
    | inr inside ↦ rw (inside, read) (last_line-read body (ground (arith, h, inside)))
  ]

  string_letter-read :
      (c : ℕ) (s : List ℕ)
      → c == b'\'' ≡ false
      → read is_db2_separator ids in_string (c ∷ s) ≡ read is_db2_separator ids in_string s
  unfolding read
  string_letter-read c s h = rw (h, read) refl

  identifier_letter-read :
      (ident : List ℕ) (c : ℕ) (s : List ℕ)
      → c == b'"' ≡ false
      → read is_db2_separator ids (in_identifier ident) (c ∷ s)
        ≡ read is_db2_separator ids (in_identifier (ident ++ c ∷ [])) s
  unfolding read
  identifier_letter-read ident c s h = rw (h, read) refl

  put_doubled_letter :
      (q c : ℕ) (body s : List ℕ)
      → c == q ≡ false
      → put_doubled q (c ∷ body) s ≡ c ∷ put_doubled q body s
  unfolding put_doubled
  put_doubled_letter q c body s h = rw (h, put_doubled) refl

  put_doubled_quote :
      (q c : ℕ) (body s : List ℕ)
      → c == q ≡ true
      → put_doubled q (c ∷ body) s ≡ q ∷ q ∷ put_doubled q body s
  unfolding put_doubled
  put_doubled_quote q c body s h = rw (h, put_doubled) refl

  -- A literal's inside, up to what follows it.
  doubled-read :
      (body s : List ℕ)
      → read is_db2_separator ids in_string (put_doubled b'\'' body s)
        ≡ read is_db2_separator ids in_string s
  unfolding read put_doubled
  doubled-read [] s = refl
  doubled-read (c ∷ body) s = elim (Bool-cases (c == b'\'')) [
    | inl quote ↦
        ap (read is_db2_separator ids in_string) (put_doubled_quote b'\'' c body s quote)
        ∙ doubled-read body s
    | inr other ↦
        ap (read is_db2_separator ids in_string) (put_doubled_letter b'\'' c body s other)
        ∙ string_letter-read c (put_doubled b'\'' body s) other
        ∙ doubled-read body s
  ]

  pub literal-read :
      (body s : List ℕ)
      → starts b'\'' s ≡ false
      → read is_db2_separator ids in_string (put_doubled b'\'' body (b'\'' ∷ s))
        ≡ add (32 ∷ []) (read is_db2_separator ids in_code s)
  unfolding read
  literal-read body s h = doubled-read body (b'\'' ∷ s) ∙ rw (h, read) refl

  pub open_string-read :
      (body : List ℕ)
      → read is_db2_separator ids in_string (put_doubled b'\'' body []) ≡ stop (some string)
  unfolding read
  open_string-read body = doubled-read body []

  doubled_identifier-read :
      (ident body s : List ℕ)
      → read is_db2_separator ids (in_identifier ident) (put_doubled b'"' body s)
        ≡ read is_db2_separator ids (in_identifier (ident ++ body)) s
  unfolding read put_doubled
  doubled_identifier-read ident [] s =
      ap (λ (t : List ℕ). read is_db2_separator ids (in_identifier t) s) (sym (append-nil ident))
  doubled_identifier-read ident (c ∷ body) s =
      let whole =
        ap (λ (t : List ℕ). read is_db2_separator ids (in_identifier t) s)
          (append-cons ident c body) in
      elim (Bool-cases (c == b'"')) [
        | inl quote ↦
            ap (read is_db2_separator ids (in_identifier ident))
              (put_doubled_quote b'"' c body s quote)
            ∙ ap
                (λ (d : ℕ).
                  read is_db2_separator ids (in_identifier (ident ++ d ∷ []))
                    (put_doubled b'"' body s))
                (ground (arith, quote))
            ∙ doubled_identifier-read (ident ++ c ∷ []) body s
            ∙ whole
        | inr other ↦
            ap (read is_db2_separator ids (in_identifier ident))
              (put_doubled_letter b'"' c body s other)
            ∙ identifier_letter-read ident c (put_doubled b'"' body s) other
            ∙ doubled_identifier-read (ident ++ c ∷ []) body s
            ∙ whole
      ]

  pub delimited-read :
      (body s : List ℕ)
      → starts b'"' s ≡ false
      → read is_db2_separator ids (in_identifier []) (put_doubled b'"' body (b'"' ∷ s))
        ≡ add (placed ids body) (read is_db2_separator ids in_code s)
  unfolding read
  delimited-read body s h = doubled_identifier-read [] body (b'"' ∷ s) ∙ rw (h, read) refl

  pub open_identifier-read :
      (body : List ℕ)
      → read is_db2_separator ids (in_identifier []) (put_doubled b'"' body [])
        ≡ stop (some identifier)
  unfolding read
  open_identifier-read body = doubled_identifier-read [] body []

  pub inside-read :
      (depth : ℕ) (i : Inside) (s : List ℕ)
      → fits_inside i s ≡ true
      → read is_db2_separator ids (in_comment depth) (put_inside i s)
        ≡ read is_db2_separator ids (in_comment depth) s
  unfolding read put_inside fits_inside
  inside-read depth nothing s h = refl
  inside-read depth (letter c i) s h =
      let t = put_inside i s in
      let a : c == b'/' && starts b'*' t ≡ false = (ground (arith, h)) in
      let b : c == b'*' && starts b'/' t ≡ false = (ground (arith, h)) in
      rw (a, b, read) (inside-read depth i s (ground (arith, h)))
  inside-read depth (nested i j) s h =
      inside-read (suc depth) i (b'*' ∷ b'/' ∷ put_inside j s) (ground (arith, h))
      ∙ inside-read depth j s (ground (arith, h))

  pub open_comment-read :
      (depth : ℕ) (i : Inside) (is : List Inside)
      → fits_open (i ∷ is) ≡ true
      → read is_db2_separator ids (in_comment depth) (put_inside i (put_open is))
        ≡ stop (some comment)
  unfolding read put_inside put_open fits_open
  open_comment-read depth i [] h = inside-read depth i [] (ground (arith, h))
  open_comment-read depth i (j ∷ js) h =
      inside-read depth i (put_open (j ∷ js)) (ground (arith, h))
      ∙ open_comment-read (suc depth) j js (ground (arith, h))
