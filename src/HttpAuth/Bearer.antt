-- ===== src/HttpAuth/Bearer.antt =====
-- src/auth/authMiddleware.ts: extractBearerToken on the headers that clients send.
use Prim.Native.Char.{Char}
use Prim.Native.String
use text.Mathlib.TextLemmas.{cons-append, nil-append, append-nil, append_assoc}
use mcp_server_db2i.Prelude.{
  String, Bool, true, false, not, ◌&&◌, none, some, List, [], ◌∷◌, ◌≡◌, ◌∙◌, refl, sym, ap, inl,
  inr, arith, str_eq, eq_iff, Bool-cases, if◌then◌else◌,
}
use mcp_server_db2i.HttpAuth.{split_spaces, is_bearer, bearer_of, extract_bearer_token}

abbrev pub is_blank : Char → Bool
is_blank c = str_eq (String.◌∷◌ c String.[]) " "

unfoldable pub is_word : String → Bool
is_word String.[] = true
is_word (String.◌∷◌ c s) = not (is_blank c) && is_word s

-- One character goes over to the part before it.
shift :
    (p : String) (c : Char) (s : String)
    → String.◌++◌ (String.◌++◌ p (String.◌∷◌ c String.[])) s ≡ String.◌++◌ p (String.◌∷◌ c s)
shift p c s =
    append_assoc p (String.◌∷◌ c String.[]) s
    ∙ ap (λ (t : String). String.◌++◌ p t)
        (cons-append c "" s ∙ ap (λ (t : String). String.◌∷◌ c t) (nil-append s))

split_spaces_word : (p a : String) → is_word a ≡ true → split_spaces p a ≡ String.◌++◌ p a ∷ []
unfolding split_spaces is_word
split_spaces_word p String.[] h = ap (λ (t : String). t ∷ []) (sym (append-nil p))
split_spaces_word p (String.◌∷◌ c a) h = elim (Bool-cases (is_blank c)) [
  | inl blank ↦ absurd (ground (arith, rw blank at h))
  | inr other ↦
      rw (other, split_spaces)
        (split_spaces_word (String.◌++◌ p (String.◌∷◌ c String.[])) a (rw other at h)
          ∙ ap (λ (t : String). t ∷ []) (shift p c a))
]

split_spaces-append :
    (p a r : String)
    → is_word a ≡ true
    → split_spaces p (String.◌++◌ a r) ≡ split_spaces (String.◌++◌ p a) r
unfolding split_spaces is_word
split_spaces-append p String.[] r h =
    ap (split_spaces p) (nil-append r) ∙ ap (λ (t : String). split_spaces t r) (sym (append-nil p))
split_spaces-append p (String.◌∷◌ c a) r h =
    ap (split_spaces p) (cons-append c a r) ∙ elim (Bool-cases (is_blank c)) [
      | inl blank ↦ absurd (ground (arith, rw blank at h))
      | inr other ↦
          rw (other, split_spaces)
            (split_spaces-append (String.◌++◌ p (String.◌∷◌ c String.[])) a r (rw other at h)
              ∙ ap (λ (t : String). split_spaces t r) (shift p c a))
    ]

split_spaces_first :
    (c : Char) (p d r : String)
    → is_blank c ≡ true
    → d ≡ String.◌∷◌ c ""
    → split_spaces p (String.◌++◌ d r) ≡ p ∷ split_spaces "" r
unfolding split_spaces
split_spaces_first c p d r blank e =
    ap (λ (t : String). split_spaces p (String.◌++◌ t r)) e
    ∙ ap (split_spaces p) (cons-append c "" r ∙ ap (λ (t : String). String.◌∷◌ c t) (nil-append r))
    ∙ rw (blank, split_spaces) refl

split_spaces_space : (p r : String) → split_spaces p (String.◌++◌ " " r) ≡ p ∷ split_spaces "" r
split_spaces_space p r = split_spaces_first _ p " " r refl refl

abbrev pub header_of : String → String → String
header_of scheme token = String.◌++◌ scheme (String.◌++◌ " " token)

split_spaces-header_of :
    (scheme token : String)
    → is_word scheme ≡ true
    → is_word token ≡ true
    → split_spaces "" (header_of scheme token) ≡ scheme ∷ token ∷ []
split_spaces-header_of scheme token s t =
    split_spaces-append "" scheme (String.◌++◌ " " token) s
    ∙ split_spaces_space (String.◌++◌ "" scheme) token
    ∙ ap (λ (l : List String). String.◌++◌ "" scheme ∷ l) (split_spaces_word "" token t)
    ∙ ap (λ (u : String). u ∷ String.◌++◌ "" token ∷ []) (nil-append scheme)
    ∙ ap (λ (u : String). scheme ∷ u ∷ []) (nil-append token)

split_header :
    (header : String) (parts : List String)
    → split_spaces "" header ≡ parts
    → extract_bearer_token (some header) ≡ (if str_eq header "" then none else bearer_of parts)
unfolding extract_bearer_token
split_header header parts h =
    ap (λ (l : List String). if str_eq header "" then none else bearer_of l) h

blank_header :
    (scheme token : String)
    → is_word scheme ≡ true
    → is_word token ≡ true
    → str_eq (header_of scheme token) "" ≡ false
unfolding split_spaces
blank_header scheme token s t = elim (Bool-cases (str_eq (header_of scheme token) "")) [
  | inr text ↦ text
  | inl empty ↦ absurd (
      let e : "" ∷ [] ≡ scheme ∷ token ∷ [] =
        sym (ap (split_spaces "") ((eq_iff (header_of scheme token) "").0 empty))
        ∙ split_spaces-header_of scheme token s t in
      cc)
]

-- A header of a scheme that is "bearer" in any case, one space and a token, neither of them with a
-- space in it, gives back that token.
pub extract_bearer_token-header_of :
    (scheme token : String)
    → is_bearer scheme ≡ true
    → is_word scheme ≡ true
    → is_word token ≡ true
    → extract_bearer_token (some (header_of scheme token)) ≡ some token
extract_bearer_token-header_of scheme token bearer s t =
    split_header (header_of scheme token) (scheme ∷ token ∷ [])
      (split_spaces-header_of scheme token s t)
    ∙ rw (blank_header scheme token s t, bearer) refl
