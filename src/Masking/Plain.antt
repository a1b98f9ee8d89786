-- ===== src/Masking/Plain.antt =====
-- src/customTools/masking.ts: what a statement without violations looks like.
use mcp_server_db2i.Prelude.{ℕ, true, ◌&&◌, List, [], ◌≡◌, ◌⊎◌, if◌then◌else◌, ◌==◌, All}
use mcp_server_db2i.Masking.Scan.{Token}
use mcp_server_db2i.Masking.Words.{IsKeyword, IsName}
use mcp_server_db2i.Masking.Order.{Unordered}
use mcp_server_db2i.Masking.Items.{IsPlainIn}
use mcp_server_db2i.Masking.Check.{is_name, item_of, is_plain_in, Progress, holds}

-- A masked name is at the outer level and is the column of a plain item of the select list.
abbrev pub IsAllowed : List (List ℕ) → List (List Token) → Token → Type 0
IsAllowed masked items t =
    (if is_name t.kind && holds t.upper_text masked
      then t.depth == 0 && is_plain_in (item_of t items) t
      else true)
    ≡ true

-- A name was reported only with a violation.
abbrev IsFair : Progress → Type 0
IsFair p = p.violations ≡ [] → p.reported ≡ []

-- What one token does.
record TokenFact (masked : List (List ℕ)) (items : List (List Token)) (t : Token) (p q : Progress)
    : Type 0 where
  grows : q.violations ≡ [] → p.violations ≡ []
  fair : IsFair q
  allowed : q.violations ≡ [] → IsAllowed masked items t

-- The token is a masked column's name.
pub record IsMasked (masked : List (List ℕ)) (t : Token) : Type 0 where
  pub name : IsName t
  pub listed : holds t.upper_text masked ≡ true

-- What a statement without violations looks like: no set operation, no ORDER BY position, and every
-- masked name in a plain item.
pub record IsClean (masked : List (List ℕ)) (tokens : List Token) : Type 0 where
  pub no_union : All (λ (t : Token). ¬ IsKeyword "UNION" t) tokens
  pub no_except : All (λ (t : Token). ¬ IsKeyword "EXCEPT" t) tokens
  pub no_intersect : All (λ (t : Token). ¬ IsKeyword "INTERSECT" t) tokens
  pub unordered : Unordered tokens
  pub plain : All (λ (t : Token). (¬ IsMasked masked t) ⊎ IsPlainIn tokens t) tokens
