-- ===== src/Masking/Scan.antt =====
-- src/customTools/masking.ts: tokenizeSql. The loops over an index are recursions on the rest of the
-- text; `at`, the token's number, stands for its identity. `scan` runs on fuel, one unit for a token or
-- a blank.
use mcp_server_db2i.Prelude.{
  ℕ, zero, suc, ◌+◌, ◌-◌, Bool, false, not, ◌&&◌, ◌||◌, Option, none, some, List, [], ◌∷◌, map,
  if◌then◌else◌, ◌==◌, length,
}
use mcp_server_db2i.Prelude.Text.{upper, is_letter, is_digit}

pub data TokenKind : Type 0 where
  ident delim string comment number dot slash comma lparen rparen other : TokenKind

pub record Token : Type 0 where
  pub kind : TokenKind
  pub text : List ℕ
  pub upper_text : List ℕ
  pub depth : ℕ
  pub at : ℕ

abbrev pub is_ident_start : ℕ → Bool
is_ident_start c = is_letter c || c == b'_' || c == b'@' || c == b'#' || c == b'$'

abbrev pub is_ident_part : ℕ → Bool
is_ident_part c = is_letter c || is_digit c || c == b'_' || c == b'@' || c == b'#' || c == b'$'

abbrev pub is_blank : ℕ → Bool
is_blank c = c == 32 || c == 9 || c == 10 || c == 13 || c == 12

abbrev pub starts : ℕ → List ℕ → Bool
starts k [] = false
starts k (c ∷ s) = c == k

abbrev pub tail : List ℕ → List ℕ
tail [] = []
tail (c ∷ s) = s

-- The longest start whose characters pass a test, and the rest.
unfoldable pub span : (ℕ → Bool) → List ℕ → List ℕ × List ℕ
span p [] = ([], [])
span p (c ∷ s) = let (a, b) = span p s in if p c then (c ∷ a, b) else ([], c ∷ s)

-- A block comment after its opening, through its end.
unfoldable pub block : List ℕ → List ℕ × List ℕ
block [] = ([], [])
block (c ∷ s) =
    let (a, b) = block s in
    if c == b'*' && starts b'/' s then (c ∷ b'/' ∷ [], tail s) else (c ∷ a, b)

-- What follows an opening quote, through the closing one. `paired`: the next character is the second
-- quote of a pair.
unfoldable pub quoted : ℕ → Bool → List ℕ → List ℕ × List ℕ
quoted q paired [] = ([], [])
quoted q paired (c ∷ s) =
    let closes = not paired && (c == q && not (starts q s)) in
    let (a, b) = quoted q (not paired && c == q) s in if closes then (c ∷ [], s) else (c ∷ a, b)

-- The text of a quoted name, whose pairs of quotes are one, without the closing quote.
unfoldable pub name_of : ℕ → Bool → List ℕ → List ℕ × List ℕ
name_of q paired [] = ([], [])
name_of q paired (c ∷ s) =
    let opens = not paired && c == q in
    let (a, b) = name_of q opens s in
    if opens && not (starts q s) then ([], s) else if opens then (a, b) else (c ∷ a, b)

-- A token, the depth after it and the rest.
abbrev pub Next : Type 0
Next = Option Token × ℕ × List ℕ

abbrev pub token : TokenKind → List ℕ → List ℕ → ℕ → ℕ → Token
token kind text upper_text depth at = record {
  kind = kind;
  text = text;
  upper_text = upper_text;
  depth = depth;
  at = at;
}

abbrev pub single : ℕ → TokenKind
single c =
    if c == b'.' then dot else if c == b'/' then slash else if c == b',' then comma else other

-- One turn of the loop of tokenizeSql.
unfoldable pub next : ℕ → ℕ → ℕ → List ℕ → Next
unfolding span block quoted name_of
next depth at c s =
    let line = span (λ k. not (k == 10)) (tail s) in
    let comment_end = block (tail s) in
    let literal = quoted b'\'' false s in
    let name = name_of b'"' false s in
    let word = span is_ident_part s in
    let digits = span (λ k. is_digit k || k == b'.') s in
    if is_blank c
    then (none, depth, s)
    else if c == b'-' && starts b'-' s
    then (some (token comment (c ∷ b'-' ∷ line.0) [] depth at), depth, line.1)
    else if c == b'/' && starts b'*' s
    then (some (token comment (c ∷ b'*' ∷ comment_end.0) [] depth at), depth, comment_end.1)
    else if c == b'\''
    then (some (token string (c ∷ literal.0) [] depth at), depth, literal.1)
    else if c == b'"'
    then (some (token delim name.0 (map upper name.0) depth at), depth, name.1)
    else if is_ident_start c
    then (some (token ident (c ∷ word.0) (map upper (c ∷ word.0)) depth at), depth, word.1)
    else if is_digit c
    then (some (token number (c ∷ digits.0) [] depth at), depth, digits.1)
    else if c == b'('
    then (some (token lparen (c ∷ []) [] depth at), depth + 1, s)
    else if c == b')'
    then (some (token rparen (c ∷ []) [] (depth - 1) at), depth - 1, s)
    else (some (token (single c) (c ∷ []) [] depth at), depth, s)

abbrev pub emit : Option Token → List Token → List Token
emit none ts = ts
emit (some t) ts = t ∷ ts

unfoldable pub scan : ℕ → ℕ → ℕ → List ℕ → List Token
unfolding next
scan zero depth at s = []
scan (suc fuel) depth at [] = []
scan (suc fuel) depth at (c ∷ s) =
    let (t, depth', rest) = next depth at c s in emit t (scan fuel depth' (at + 1) rest)

unfoldable pub tokenize_sql : List ℕ → List Token
unfolding scan
tokenize_sql sql = scan (length sql) 0 0 sql
