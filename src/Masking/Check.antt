-- ===== src/Masking/Check.antt =====
-- src/customTools/masking.ts: checkMaskedColumns and what it calls.
use mcp_server_db2i.Prelude.{
  ℕ, String, Bool, true, false, not, ◌&&◌, ◌||◌, Option, none, some, List, [], ◌∷◌, ◌++◌,
  if◌then◌else◌, ◌==◌, any, filter,
}
use mcp_server_db2i.Prelude.Text.{codes, codes_eq}
use mcp_server_db2i.Masking.Scan.{
  TokenKind, Token, ident, delim, string, comment, number, dot, slash, comma, lparen, rparen, other,
  tokenize_sql,
}

abbrev pub is_ident : TokenKind → Bool
is_ident ident = true
is_ident delim = false
is_ident string = false
is_ident comment = false
is_ident number = false
is_ident dot = false
is_ident slash = false
is_ident comma = false
is_ident lparen = false
is_ident rparen = false
is_ident other = false

-- An ordinary or a quoted name.
abbrev pub is_name : TokenKind → Bool
is_name ident = true
is_name delim = true
is_name string = false
is_name comment = false
is_name number = false
is_name dot = false
is_name slash = false
is_name comma = false
is_name lparen = false
is_name rparen = false
is_name other = false

-- `kind`, for the kinds that are compared alone.
abbrev pub rank : TokenKind → ℕ
rank ident = 0
rank delim = 1
rank string = 2
rank comment = 3
rank number = 4
rank dot = 5
rank slash = 6
rank comma = 7
rank lparen = 8
rank rparen = 9
rank other = 10

abbrev pub is_kind : TokenKind → Token → Bool
is_kind k t = rank t.kind == rank k

-- An ordinary name at the outer level that is a keyword.
abbrev pub is_word : String → Token → Bool
is_word word t = is_ident t.kind && (t.depth == 0 && codes_eq t.upper_text (codes word))

-- What follows the first token that passes a test.
unfoldable pub after : (Token → Bool) → List Token → Option (List Token)
after p [] = none
after p (t ∷ ts) = let rest = after p ts in if p t then some ts else rest

-- What stands before the first token that passes a test, or all of it.
unfoldable pub before : (Token → Bool) → List Token → List Token
before p [] = []
before p (t ∷ ts) = let rest = before p ts in if p t then [] else t ∷ rest

abbrev pub skip_qualifier : List Token → List Token
skip_qualifier [] = []
skip_qualifier (t ∷ ts) = if is_word "DISTINCT" t || is_word "ALL" t then ts else t ∷ ts

-- The tokens of selectList.
unfoldable pub select_list : List Token → Option (List Token)
unfolding after before
select_list tokens = elim (after (is_word "SELECT") tokens) [
  | none ↦ none
  | some rest ↦ some (before (is_word "FROM") (skip_qualifier rest))
]

abbrev pub push_item : List Token → List (List Token) → List (List Token)
push_item [] items = items
push_item (t ∷ ts) items = (t ∷ ts) ∷ items

-- The loop of splitItems, with the current item.
unfoldable pub split_from : List Token → List Token → List (List Token)
split_from current [] = push_item current []
split_from current (t ∷ ts) =
    let cut = is_kind comma t && t.depth == 0 in
    let rest = split_from (if cut then [] else current ++ t ∷ []) ts in
    if cut then push_item current rest else rest

unfoldable pub split_items : List Token → List (List Token)
unfolding split_from
split_items tokens = split_from [] tokens

abbrev pub is_dot : Token → Bool
is_dot t = is_kind dot t

-- plainColumnItem: COL, Q.COL or S.T.COL.
unfoldable pub plain_column_item : List Token → List ℕ → Bool
plain_column_item [] column = false
plain_column_item (a ∷ []) column = is_name a.kind && codes_eq a.upper_text column
plain_column_item (a ∷ b ∷ []) column = false
plain_column_item (a ∷ b ∷ c ∷ []) column =
    is_name a.kind && is_dot b && is_name c.kind && codes_eq c.upper_text column
plain_column_item (a ∷ b ∷ c ∷ d ∷ []) column = false
plain_column_item (a ∷ b ∷ c ∷ d ∷ e ∷ []) column =
    is_name a.kind
    && is_dot b
    && is_name c.kind
    && is_dot d
    && is_name e.kind
    && codes_eq e.upper_text column
plain_column_item (a ∷ b ∷ c ∷ d ∷ e ∷ f ∷ rest) column = false

abbrev pub is_end : Token → Bool
is_end t = is_word "FETCH" t || is_word "LIMIT" t || is_word "OFFSET" t

-- The first token of an item that is no comment is a number.
unfoldable pub starts_with_number : List Token → Bool
starts_with_number [] = false
starts_with_number (t ∷ ts) =
    let rest = starts_with_number ts in if is_kind comment t then rest else is_kind number t

-- Does the first of two tokens and the list after them make an ORDER BY with a position?
abbrev pub orders_by : Token → List Token → Bool
orders_by t [] = false
orders_by t (u ∷ ts) =
    is_word "ORDER" t && is_word "BY" u && any starts_with_number (split_items (before is_end ts))

unfoldable pub order_by_position : List Token → Bool
unfolding before split_items starts_with_number
order_by_position [] = false
order_by_position (t ∷ ts) = let rest = order_by_position ts in orders_by t ts || rest

-- The item that holds the token.
unfoldable pub item_of : Token → List (List Token) → Option (List Token)
item_of t [] = none
item_of t (item ∷ items) =
    let rest = item_of t items in if any (λ (u : Token). u.at == t.at) item then some item else rest

abbrev pub is_plain_in : Option (List Token) → Token → Bool
is_plain_in none t = false
is_plain_in (some item) t = plain_column_item item t.upper_text

pub data Violation : Type 0 where
  set_operation : String → Violation
  order_by : Violation
  not_plain : List ℕ → Violation

-- The sets of the loop, and the violations so far.
pub record Progress : Type 0 where
  pub violations : List Violation
  pub selected : List (List ℕ)
  pub reported : List (List ℕ)

abbrev pub holds : List ℕ → List (List ℕ) → Bool
holds name names = any (λ n. codes_eq n name) names

abbrev pub add : List ℕ → List (List ℕ) → List (List ℕ)
add name names = if holds name names then names else names ++ name ∷ []

unfoldable pub check_token : List (List ℕ) → List (List Token) → Token → Progress → Progress
unfolding item_of plain_column_item
check_token masked items t p =
    if not (is_name t.kind) || not (holds t.upper_text masked)
    then p
    else if t.depth == 0 && is_plain_in (item_of t items) t
    then record p { selected = add t.upper_text p.selected }
    else if holds t.upper_text p.reported
    then p
    else record p {
      reported = t.upper_text ∷ p.reported;
      violations = p.violations ++ not_plain t.upper_text ∷ [];
    }

unfoldable pub check_tokens : List (List ℕ) → List (List Token) → List Token → Progress → Progress
unfolding check_token
check_tokens masked items [] p = p
check_tokens masked items (t ∷ ts) p = check_tokens masked items ts (check_token masked items t p)

-- The loop over the words that join two queries.
unfoldable pub set_operations : List String → List Token → List Violation
set_operations [] tokens = []
set_operations (word ∷ words) tokens =
    let rest = set_operations words tokens in
    if any (is_word word) tokens then set_operation word ∷ rest else rest

abbrev pub items_of : List Token → List (List Token)
items_of tokens = elim (select_list tokens) [ none ↦ [] | some list ↦ split_items list ]

-- An item that is `*`.
abbrev pub is_star : List Token → Bool
is_star [] = false
is_star (t ∷ []) = is_kind other t && codes_eq t.text (b'*' ∷ [])
is_star (t ∷ u ∷ ts) = false

abbrev pub add_each : List (List ℕ) → List (List ℕ) → List (List ℕ)
add_each [] names = names
add_each (n ∷ ns) names = add_each ns (add n names)

-- The violations, and the masked columns that the statement returns.
unfoldable pub check_tokenized : List (List ℕ) → List Token → List Violation × List (List ℕ)
unfolding check_tokens set_operations select_list split_items order_by_position
check_tokenized masked tokens =
    let first =
      set_operations ("UNION" ∷ "EXCEPT" ∷ "INTERSECT" ∷ []) tokens
      ++ (if order_by_position tokens then order_by ∷ [] else []) in
    let p =
      check_tokens masked (items_of tokens) tokens
        (record { violations = first; selected = []; reported = [] }) in
    (
      p.violations,
      (if any is_star (items_of tokens) then add_each masked p.selected else p.selected),
    )

unfoldable pub check_masked_columns : List ℕ → List (List ℕ) → List Violation × List (List ℕ)
unfolding check_tokenized tokenize_sql
check_masked_columns sql [] = ([], [])
check_masked_columns sql (m ∷ ms) =
    check_tokenized (m ∷ ms) (filter (λ (t : Token). not (is_kind comment t)) (tokenize_sql sql))
