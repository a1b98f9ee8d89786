-- ===== src/Masking/Items.antt =====
-- src/customTools/masking.ts: the items of the outer select list.
use mcp_server_db2i.Prelude.{
  ℕ, Bool, true, false, ◌&&◌, Option, none, some, List, [], ◌∷◌, ◌++◌, ◌≡◌, ◌∙◌, ◌⊎◌, refl, sym, ap,
  inl, inr, arith, ◌==◌, any, All, Bool-cases, Option-cases, some-eq-some, subst,
}
use mathlib.Core.List.{append_assoc}
use mcp_server_db2i.Prelude.Text.{codes_eq_iff}
use mcp_server_db2i.Masking.Scan.{Token, comma, dot}
use mcp_server_db2i.Masking.Check.{
  is_name, is_word, is_kind, after, before, skip_qualifier, select_list, push_item, split_from,
  split_items, plain_column_item, item_of, is_plain_in, items_of,
}
use mcp_server_db2i.Masking.Words.{
  IsKeyword, IsName, is_name-IsName, is_word-IsKeyword, IsCutAfter, after-IsCutAfter, IsCutBefore,
  before-IsCutBefore,
}

-- A comma at the outer level.
abbrev pub separates : Token → Bool
separates t = is_kind comma t && t.depth == 0

-- What follows the first SELECT at the outer level, without DISTINCT or ALL, up to the first FROM.
pub record IsSelectList (tokens list : List Token) : Type 0 where
  pub body : List Token
  pub selected : IsCutAfter "SELECT" tokens body
  pub qualifier : List Token
  pub unqualified : List Token
  pub qualified : body ≡ qualifier ++ unqualified
  pub qualifies :
      (qualifier ≡ [])
      ⊎ ((q : Token) × (qualifier ≡ q ∷ []) × (IsKeyword "DISTINCT" q ⊎ IsKeyword "ALL" q))
  pub before_from : IsCutBefore "FROM" unqualified list

-- A stretch of the list without a comma, between two commas or the ends of the list.
pub record IsPiece (list item : List Token) : Type 0 where
  pub left : List Token
  pub right : List Token
  pub split : list ≡ left ++ (item ++ right)
  pub whole : any separates item ≡ false
  pub begins :
      (left ≡ []) ⊎ ((us : List Token) × (t : Token) × (left ≡ us ++ t ∷ []) × (separates t ≡ true))
  pub ends :
      (right ≡ []) ⊎ ((t : Token) × (us : List Token) × (right ≡ t ∷ us) × (separates t ≡ true))

-- COL, Q.COL or S.T.COL, with the column's text.
abbrev pub IsColumn : List Token → List ℕ → Type 0
IsColumn [] column = ⊥
IsColumn (a ∷ []) column = IsName a × (a.upper_text ≡ column)
IsColumn (a ∷ b ∷ []) column = ⊥
IsColumn (a ∷ b ∷ c ∷ []) column =
    IsName a × (is_kind dot b ≡ true) × IsName c × (c.upper_text ≡ column)
IsColumn (a ∷ b ∷ c ∷ d ∷ []) column = ⊥
IsColumn (a ∷ b ∷ c ∷ d ∷ e ∷ []) column =
    IsName a
    × (is_kind dot b ≡ true)
    × IsName c
    × (is_kind dot d ≡ true)
    × IsName e
    × (e.upper_text ≡ column)
IsColumn (a ∷ b ∷ c ∷ d ∷ e ∷ f ∷ rest) column = ⊥

-- The token stands at the outer level, in an item of the outer select list that is a plain column, the one
-- that the token names.
pub record IsPlainIn (tokens : List Token) (t : Token) : Type 0 where
  pub outer : t.depth ≡ 0
  pub list : List Token
  pub selects : IsSelectList tokens list
  pub item : List Token
  pub piece : IsPiece list item
  pub holds_it : any (λ (u : Token). u.at == t.at) item ≡ true
  pub column : IsColumn item t.upper_text

named : (t : Token) → is_name t.kind ≡ true → IsName t
named t h = (is_name-IsName t).0 h

plain_column_item-IsColumn :
    (item : List Token) (column : List ℕ)
    → plain_column_item item column ≡ true
    → IsColumn item column
unfolding plain_column_item
plain_column_item-IsColumn [] column h = absurd (ground (arith, h))
plain_column_item-IsColumn (a ∷ []) column h =
    (named a (ground (arith, h)), (codes_eq_iff a.upper_text column).0 (ground (arith, h)))
plain_column_item-IsColumn (a ∷ b ∷ []) column h = absurd (ground (arith, h))
plain_column_item-IsColumn (a ∷ b ∷ c ∷ []) column h = (
  named a (ground (arith, h)),
  ground (arith, h),
  named c (ground (arith, h)),
  (codes_eq_iff c.upper_text column).0 (ground (arith, h)),
)
plain_column_item-IsColumn (a ∷ b ∷ c ∷ d ∷ []) column h = absurd (ground (arith, h))
plain_column_item-IsColumn (a ∷ b ∷ c ∷ d ∷ e ∷ []) column h = (
  named a (ground (arith, h)),
  ground (arith, h),
  named c (ground (arith, h)),
  ground (arith, h),
  named e (ground (arith, h)),
  (codes_eq_iff e.upper_text column).0 (ground (arith, h)),
)
plain_column_item-IsColumn (a ∷ b ∷ c ∷ d ∷ e ∷ f ∷ rest) column h = absurd (ground (arith, h))

All-map :
    (P Q : List Token → Type 0) (xs : List (List Token))
    → ((x : List Token) → P x → Q x)
    → All P xs
    → All Q xs
All-map P Q [] f h = tt
All-map P Q (x ∷ xs) f (p, ps) = (f x p, All-map P Q xs f ps)

-- A piece of what follows a comma.
later-IsPiece :
    (cur ts : List Token) (t : Token) (item : List Token)
    → separates t ≡ true
    → IsPiece ts item
    → IsPiece (cur ++ t ∷ ts) item
later-IsPiece cur ts t item cut p = record {
  left = cur ++ t ∷ p.left;
  right = p.right;
  split =
      let moved : cur ++ t ∷ (p.left ++ (item ++ p.right))
          ≡ (cur ++ t ∷ p.left) ++ (item ++ p.right) =
        sym (append_assoc cur (t ∷ p.left) (item ++ p.right)) in
      ap (λ (u : List Token). cur ++ t ∷ u) p.split ∙ moved;
  whole = p.whole;
  begins = inr (elim p.begins [
    | inl none_left ↦ (cur, t, ap (λ (u : List Token). cur ++ t ∷ u) none_left, cut)
    | inr (us, v, e, comma_v) ↦ (
      cur ++ t ∷ us,
      v,
      ap (λ (u : List Token). cur ++ t ∷ u) e ∙ sym (append_assoc cur (t ∷ us) (v ∷ [])),
      comma_v,
    )
  ]);
  ends = p.ends;
}

push_item-All :
    (P : List Token → Type 0) (cur : List Token) (items : List (List Token))
    → P cur
    → All P items
    → All P (push_item cur items)
push_item-All P [] items h hs = hs
push_item-All P (t ∷ ts) items h hs = (h, hs)

any-snoc :
    (cur : List Token) (t : Token)
    → any separates cur ≡ false
    → separates t ≡ false
    → any separates (cur ++ t ∷ []) ≡ false
any-snoc [] t h i = ground (arith, i)
any-snoc (c ∷ cur) t h i = ground (arith, h, any-snoc cur t (ground (arith, h)) i)

split_from-IsPiece :
    (cur ts : List Token)
    → any separates cur ≡ false
    → All (IsPiece (cur ++ ts)) (split_from cur ts)
unfolding split_from
split_from-IsPiece cur [] h =
    push_item-All (IsPiece (cur ++ [])) cur []
      (record {
        left = [];
        right = [];
        split = refl;
        whole = h;
        begins = inl refl;
        ends = inl refl;
      })
      tt
split_from-IsPiece cur (t ∷ ts) h = elim (Bool-cases (separates t)) [
  | inl cut ↦
      rw (cut, split_from)
        (push_item-All (IsPiece (cur ++ t ∷ ts)) cur (split_from [] ts)
          (record {
            left = [];
            right = t ∷ ts;
            split = refl;
            whole = h;
            begins = inl refl;
            ends = inr (t, ts, refl, cut);
          })
          (All-map (IsPiece ts) (IsPiece (cur ++ t ∷ ts)) (split_from [] ts)
            (λ item p. later-IsPiece cur ts t item cut p) (split_from-IsPiece [] ts refl)))
  | inr more ↦
      rw (more, split_from)
        (subst (λ (u : List Token). All (IsPiece u) (split_from (cur ++ t ∷ []) ts))
          (append_assoc cur (t ∷ []) ts)
          (split_from-IsPiece (cur ++ t ∷ []) ts (any-snoc cur t h more)))
]

-- The item that is found has what all items have, and holds the token.
item_of-All :
    (P : List Token → Type 0) (t : Token) (items : List (List Token)) (item : List Token)
    → All P items
    → item_of t items ≡ some item
    → P item × (any (λ (u : Token). u.at == t.at) item ≡ true)
unfolding item_of
item_of-All P t [] item a h = cc
item_of-All P t (i ∷ items) item (p, ps) h =
    elim (Bool-cases (any (λ (u : Token). u.at == t.at) i)) [
      | inl this ↦
          let same : i ≡ item = some-eq-some (rw (this, item_of) at h) in
          subst (λ (u : List Token). P u × (any (λ (v : Token). v.at == t.at) u ≡ true)) same
            (p, this)
      | inr other ↦ item_of-All P t items item ps (rw (other, item_of) at h)
    ]

skip_qualifier_lem :
    (ts : List Token)
    → (q : List Token) × (ts ≡ q ++ skip_qualifier ts)
      × ((q ≡ []) ⊎ ((t : Token) × (q ≡ t ∷ []) × (IsKeyword "DISTINCT" t ⊎ IsKeyword "ALL" t)))
skip_qualifier_lem [] = ([], refl, inl refl)
skip_qualifier_lem (t ∷ ts) = elim (Bool-cases (is_word "DISTINCT" t)) [
  | inl distinct ↦
      (t ∷ [], rw distinct refl, inr (t, refl, inl ((is_word-IsKeyword "DISTINCT" t).0 distinct)))
  | inr other ↦ elim (Bool-cases (is_word "ALL" t)) [
    | inl all ↦
        (t ∷ [], rw (other, all) refl, inr (t, refl, inr ((is_word-IsKeyword "ALL" t).0 all)))
    | inr neither ↦ ([], rw (other, neither) refl, inl refl)
  ]
]

select_list-IsSelectList :
    (tokens list : List Token) → select_list tokens ≡ some list → IsSelectList tokens list
unfolding select_list
select_list-IsSelectList tokens list h = elim (Option-cases (after (is_word "SELECT") tokens)) [
  | inl missing ↦ absurd (let e = rw (missing, select_list) at h in cc)
  | inr (body, found) ↦
      let same : before (is_word "FROM") (skip_qualifier body) ≡ list =
        some-eq-some (rw (found, select_list) at h) in
      let (q, qualified, qualifies) = skip_qualifier_lem body in
      record {
        body = body;
        selected = after-IsCutAfter "SELECT" tokens body found;
        qualifier = q;
        unqualified = skip_qualifier body;
        qualified = qualified;
        qualifies = qualifies;
        before_from =
            subst (IsCutBefore "FROM" (skip_qualifier body)) same
              (before-IsCutBefore "FROM" (skip_qualifier body));
      }
]

abbrev items_in : Option (List Token) → List (List Token)
items_in o = elim o as (λ (p : Option (List Token)). List (List Token)) [
  | none ↦ []
  | some list ↦ split_items list
]

pub is_plain_in-IsPlainIn :
    (tokens : List Token) (t : Token)
    → t.depth ≡ 0
    → is_plain_in (item_of t (items_of tokens)) t ≡ true
    → IsPlainIn tokens t
unfolding split_items item_of
is_plain_in-IsPlainIn tokens t outer h = elim (Option-cases (select_list tokens)) [
  | inl missing ↦ absurd (
      let none_there : items_of tokens ≡ [] = ap items_in missing in
      let h2 = sym (ap (λ (is : List (List Token)). is_plain_in (item_of t is) t) none_there) ∙ h in
      cc)
  | inr (list, found) ↦
      let items : items_of tokens ≡ split_items list = ap items_in found in
      let h2 : is_plain_in (item_of t (split_items list)) t ≡ true =
        sym (ap (λ (is : List (List Token)). is_plain_in (item_of t is) t) items) ∙ h in
      elim (Option-cases (item_of t (split_items list))) [
        | inl nowhere ↦ absurd (let e = rw nowhere at h2 in cc)
        | inr (item, stands) ↦
            let (piece, holds_it) =
              item_of-All (IsPiece list) t (split_items list) item (split_from-IsPiece [] list refl)
                stands in
            record {
              outer = outer;
              list = list;
              selects = select_list-IsSelectList tokens list found;
              item = item;
              piece = piece;
              holds_it = holds_it;
              column = plain_column_item-IsColumn item t.upper_text (rw stands at h2);
            }
      ]
]
