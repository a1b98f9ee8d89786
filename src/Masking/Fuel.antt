-- ===== src/Masking/Fuel.antt =====
-- src/customTools/masking.ts: the loop of tokenizeSql and the fuel of its model.
use mcp_server_db2i.Prelude.{
  ℕ, zero, suc, ◌+◌, ◌≤◌, Bool, false, not, ◌&&◌, ◌||◌, List, [], ◌∷◌, ◌≡◌, refl, ap, arith, length,
  ◌==◌,
}
use mcp_server_db2i.Prelude.Text.{is_digit}
use mcp_server_db2i.Masking.Scan.{
  Token, span, block, quoted, name_of, tail, next, emit, scan, tokenize_sql, is_ident_part,
}

length-span-le : (p : ℕ → Bool) (s : List ℕ) → length (span p s).1 ≤ length s
unfolding span
length-span-le p [] = omega arith
length-span-le p (c ∷ s) = ground (arith, length-span-le p s)

length-tail-le : (s : List ℕ) → length (tail s) ≤ length s
length-tail-le [] = omega arith
length-tail-le (c ∷ s) = omega arith

length-block-le : (s : List ℕ) → length (block s).1 ≤ length s
unfolding block
length-block-le [] = omega arith
length-block-le (c ∷ s) = ground (arith, length-block-le s, length-tail-le s)

length-quoted-le : (q : ℕ) (paired : Bool) (s : List ℕ) → length (quoted q paired s).1 ≤ length s
unfolding quoted
length-quoted-le q paired [] = omega arith
length-quoted-le q paired (c ∷ s) =
    let rest = length-quoted-le q (not paired && c == q) s in ground (arith, rest)

length-name_of-le : (q : ℕ) (paired : Bool) (s : List ℕ) → length (name_of q paired s).1 ≤ length s
unfolding name_of
length-name_of-le q paired [] = omega arith
length-name_of-le q paired (c ∷ s) =
    let rest = length-name_of-le q (not paired && c == q) s in ground (arith, rest)

-- Each turn takes at least the character that it looks at.
length-next-le : (depth at c : ℕ) (s : List ℕ) → length (next depth at c s).2 ≤ length s
unfolding next
length-next-le depth at c s =
    let line = length-span-le (λ k. not (k == 10)) (tail s) in
    let comment_end = length-block-le (tail s) in
    let word = length-span-le is_ident_part s in
    let digits = length-span-le (λ k. is_digit k || k == b'.') s in
    ground (
      arith,
      line,
      comment_end,
      word,
      digits,
      length-tail-le s,
      length-quoted-le b'\'' false s,
      length-name_of-le b'"' false s,
    )

scan_fuel :
    (f g depth at : ℕ) (s : List ℕ)
    → length s ≤ f
    → length s ≤ g
    → scan f depth at s ≡ scan g depth at s
unfolding scan
scan_fuel zero zero depth at s a b = refl
scan_fuel zero (suc g) depth at [] a b = refl
scan_fuel zero (suc g) depth at (c ∷ s) a b = absurd (omega arith)
scan_fuel (suc f) zero depth at [] a b = refl
scan_fuel (suc f) zero depth at (c ∷ s) a b = absurd (omega arith)
scan_fuel (suc f) (suc g) depth at [] a b = refl
scan_fuel (suc f) (suc g) depth at (c ∷ s) a b =
    let n = next depth at c s in
    let shorter = length-next-le depth at c s in
    ap (λ (ts : List Token). emit n.0 ts)
      (scan_fuel f g n.1 (at + 1) n.2 (omega arith) (omega arith))

-- With any fuel that is at least the length of the text, the tokens are those of tokenizeSql: the loop
-- ends by the end of the text, and more turns add nothing.
pub scan-tokenize_sql : (f : ℕ) (sql : List ℕ) → length sql ≤ f → scan f 0 0 sql ≡ tokenize_sql sql
unfolding tokenize_sql
scan-tokenize_sql f sql h = scan_fuel f (length sql) 0 0 sql h (omega arith)
