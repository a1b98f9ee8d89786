-- ===== src/Masking/Words.antt =====
-- src/customTools/masking.ts: keywords and names among the tokens, and the parts that keywords cut.
use mcp_server_db2i.Prelude.{
  String, true, false, some, List, [], ◌∷◌, ◌++◌, ◌≡◌, ◌↔◌, ◌⊎◌, refl, ap, inl, inr, arith, any,
  All, Bool-cases, some-eq-some,
}
use mcp_server_db2i.Prelude.Text.{codes, codes_eq, codes_eq_iff}
use mcp_server_db2i.Masking.Scan.{
  TokenKind, Token, ident, delim, string, comment, number, dot, slash, comma, lparen, rparen, other,
}
use mcp_server_db2i.Masking.Check.{is_ident, is_name, is_word, after, before}

-- An ordinary name at the outer level with this text.
pub record IsKeyword (word : String) (t : Token) : Type 0 where
  pub ordinary : t.kind ≡ ident
  pub outer : t.depth ≡ 0
  pub text : t.upper_text ≡ codes word

-- An ordinary or a quoted name.
abbrev pub IsName : Token → Type 0
IsName t = (t.kind ≡ ident) ⊎ (t.kind ≡ delim)

is_ident_lem : (k : TokenKind) → is_ident k ≡ true → k ≡ ident
is_ident_lem ident h = refl
is_ident_lem delim h = cc
is_ident_lem string h = cc
is_ident_lem comment h = cc
is_ident_lem number h = cc
is_ident_lem dot h = cc
is_ident_lem slash h = cc
is_ident_lem comma h = cc
is_ident_lem lparen h = cc
is_ident_lem rparen h = cc
is_ident_lem other h = cc

is_name_lem : (k : TokenKind) → is_name k ≡ true → (k ≡ ident) ⊎ (k ≡ delim)
is_name_lem ident h = inl refl
is_name_lem delim h = inr refl
is_name_lem string h = cc
is_name_lem comment h = cc
is_name_lem number h = cc
is_name_lem dot h = cc
is_name_lem slash h = cc
is_name_lem comma h = cc
is_name_lem lparen h = cc
is_name_lem rparen h = cc
is_name_lem other h = cc

pub is_name-IsName : (t : Token) → (is_name t.kind ≡ true) ↔ IsName t
is_name-IsName t = (is_name_lem t.kind, λ h. elim h [ inl e ↦ ap is_name e | inr e ↦ ap is_name e ])

pub is_word-IsKeyword : (word : String) (t : Token) → (is_word word t ≡ true) ↔ IsKeyword word t
is_word-IsKeyword word t =
    let same = codes_eq_iff t.upper_text (codes word) in
    (
      λ h. record {
        ordinary = is_ident_lem t.kind (ground (arith, h));
        outer = ground (arith, h);
        text = same.0 (ground (arith, h));
      },
      λ k.
          let named : is_ident t.kind ≡ true = ap is_ident k.ordinary in
          let spelled : codes_eq t.upper_text (codes word) ≡ true = same.1 k.text in
          ground (arith, named, spelled, k.outer),
    )

pub no_word : (word : String) (t : Token) → is_word word t ≡ false → ¬ IsKeyword word t
no_word word t h k = let e = (is_word-IsKeyword word t).1 k in absurd (ground (arith, h, e))

pub no_words :
    (word : String) (ts : List Token)
    → any (is_word word) ts ≡ false
    → All (λ (t : Token). ¬ IsKeyword word t) ts
no_words word [] h = tt
no_words word (t ∷ ts) h =
    (no_word word t (ground (arith, h)), no_words word ts (ground (arith, h)))

-- The list is cut at its first keyword, which is left out.
pub record IsCutAfter (word : String) (ts rest : List Token) : Type 0 where
  pub left : List Token
  pub cut : Token
  pub split : ts ≡ left ++ cut ∷ rest
  pub first : All (λ (t : Token). ¬ IsKeyword word t) left
  pub keyword : IsKeyword word cut

pub after-IsCutAfter :
    (word : String) (ts rest : List Token)
    → after (is_word word) ts ≡ some rest
    → IsCutAfter word ts rest
unfolding after
after-IsCutAfter word [] rest h = cc
after-IsCutAfter word (t ∷ ts) rest h = elim (Bool-cases (is_word word t)) [
  | inl here ↦
      let same : ts ≡ rest = some-eq-some (rw (here, after) at h) in
      record {
        left = [];
        cut = t;
        split = ap (λ (u : List Token). t ∷ u) same;
        first = tt;
        keyword = (is_word-IsKeyword word t).0 here;
      }
  | inr there ↦
      let cut = after-IsCutAfter word ts rest (rw (there, after) at h) in
      record {
        left = t ∷ cut.left;
        cut = cut.cut;
        split = ap (λ (u : List Token). t ∷ u) cut.split;
        first = (no_word word t there, cut.first);
        keyword = cut.keyword;
      }
]

-- The list is cut before its first keyword, or is whole.
pub record IsCutBefore (word : String) (ts list : List Token) : Type 0 where
  pub right : List Token
  pub split : ts ≡ list ++ right
  pub inner : All (λ (t : Token). ¬ IsKeyword word t) list
  pub end : (right ≡ []) ⊎ ((t : Token) × (us : List Token) × (right ≡ t ∷ us) × IsKeyword word t)

pub before-IsCutBefore :
    (word : String) (ts : List Token) → IsCutBefore word ts (before (is_word word) ts)
unfolding before
before-IsCutBefore word [] = record { right = []; split = refl; inner = tt; end = inl refl }
before-IsCutBefore word (t ∷ ts) = elim (Bool-cases (is_word word t)) [
  | inl here ↦
      rw (here, before)
        (record {
          right = t ∷ ts;
          split = refl;
          inner = tt;
          end = inr (t, ts, refl, (is_word-IsKeyword word t).0 here);
        })
  | inr there ↦
      let cut = before-IsCutBefore word ts in
      rw (there, before)
        (record {
          right = cut.right;
          split = ap (λ (u : List Token). t ∷ u) cut.split;
          inner = (no_word word t there, cut.inner);
          end = cut.end;
        })
]
