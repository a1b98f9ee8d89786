-- ===== src/Masking/Order.antt =====
-- src/customTools/masking.ts: ORDER BY positions, by a reading that goes through the tokens once.
use mcp_server_db2i.Prelude.{
  Bool, true, false, not, ◌&&◌, ◌||◌, List, [], ◌∷◌, ◌++◌, ◌≡◌, ◌∙◌, refl, ap, inl, inr, arith,
  ◌==◌, if◌then◌else◌, any, Bool-cases,
}
use mcp_server_db2i.Masking.Scan.{Token, comment, number, comma}
use mcp_server_db2i.Masking.Check.{
  is_word, is_kind, before, push_item, split_from, split_items, is_end, starts_with_number,
  orders_by, order_by_position,
}
use mcp_server_db2i.Masking.Words.{IsKeyword, is_word-IsKeyword}

-- Does a sort key start with a number? `start`: nothing of the key was read yet. The keys are separated by
-- commas at the outer level, and end with FETCH, LIMIT or OFFSET.
unfoldable pub has_position : Bool → List Token → Bool
has_position start [] = false
has_position start (t ∷ ts) =
    let next = has_position true ts in
    let same = has_position (start && is_kind comment t) ts in
    if is_word "FETCH" t || is_word "LIMIT" t || is_word "OFFSET" t
    then false
    else if is_kind comma t && t.depth == 0
    then next
    else start && is_kind number t || same

-- No ORDER and BY stand together before sort keys of which one starts with a number.
abbrev pub NotOrdered : Token → List Token → Type 0
NotOrdered t [] = Unit
NotOrdered t (u ∷ ts) = ¬ (IsKeyword "ORDER" t × IsKeyword "BY" u × (has_position true ts ≡ true))

abbrev pub Unordered : List Token → Type 0
Unordered [] = Unit
Unordered (t ∷ ts) = NotOrdered t ts × Unordered ts

unfoldable only_comments : List Token → Bool
only_comments [] = true
only_comments (t ∷ ts) = is_kind comment t && only_comments ts

starts_snoc :
    (cur : List Token) (t : Token)
    → starts_with_number (cur ++ t ∷ [])
      ≡ (starts_with_number cur || only_comments cur && not (is_kind comment t) && is_kind number t)
unfolding starts_with_number only_comments
starts_snoc [] t = ground arith
starts_snoc (c ∷ cur) t = ground (arith, starts_snoc cur t)

only_comments_snoc :
    (cur : List Token) (t : Token)
    → only_comments (cur ++ t ∷ []) ≡ (only_comments cur && is_kind comment t)
unfolding only_comments
only_comments_snoc [] t = ground arith
only_comments_snoc (c ∷ cur) t = ground (arith, only_comments_snoc cur t)

no_number_comment : (t : Token) → is_kind number t ≡ true → is_kind comment t ≡ false
no_number_comment t h = ground (arith, h)

any-push_item :
    (cur : List Token) (items : List (List Token))
    → any starts_with_number (push_item cur items)
      ≡ (starts_with_number cur || any starts_with_number items)
unfolding starts_with_number
any-push_item [] items = refl
any-push_item (t ∷ ts) items = refl

split_from-has_position :
    (cur ts : List Token)
    → any starts_with_number (split_from cur (before is_end ts))
      ≡ (starts_with_number cur || has_position (only_comments cur) ts)
unfolding split_from before has_position only_comments starts_with_number
split_from-has_position cur [] = any-push_item cur []
split_from-has_position cur (t ∷ ts) = elim (Bool-cases (is_end t)) [
  | inl end ↦ rw (end, before, has_position) (any-push_item cur [])
  | inr on ↦ elim (Bool-cases (is_kind comma t && t.depth == 0)) [
    | inl cut ↦
        let keys = split_from-has_position [] ts in
        rw (on, before, split_from, has_position, cut)
          (any-push_item cur (split_from [] (before is_end ts))
            ∙ ap (λ (b : Bool). starts_with_number cur || b) keys)
    | inr more ↦
        let longer = split_from-has_position (cur ++ t ∷ []) ts in
        rw (on, before, split_from, has_position, more)
          (longer
            ∙ ground (
              arith,
              starts_snoc cur t,
              ap (λ (b : Bool). has_position b ts) (only_comments_snoc cur t),
              no_number_comment t,
            ))
  ]
]

from_start :
    (ts : List Token)
    → any starts_with_number (split_items (before is_end ts)) ≡ has_position true ts
unfolding split_items only_comments starts_with_number
from_start ts = split_from-has_position [] ts

orders_by-NotOrdered : (t : Token) (ts : List Token) → orders_by t ts ≡ false → NotOrdered t ts
orders_by-NotOrdered t [] h = tt
orders_by-NotOrdered t (u ∷ ts) h = λ (order, by, position).
    let a = (is_word-IsKeyword "ORDER" t).1 order in
    let b = (is_word-IsKeyword "BY" u).1 by in
    absurd (ground (arith, h, from_start ts, a, b, position))

pub order_by_position-Unordered : (ts : List Token) → order_by_position ts ≡ false → Unordered ts
unfolding order_by_position split_items
order_by_position-Unordered [] h = tt
order_by_position-Unordered (t ∷ ts) h = (
  orders_by-NotOrdered t ts (ground (arith, h)),
  order_by_position-Unordered ts (ground (arith, h)),
)
