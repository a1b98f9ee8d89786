-- ===== src/SqlSecurity/Validator/Accepts.antt =====
-- src/utils/security/sqlSecurityValidator.ts: when a query is accepted.
use mcp_server_db2i.Prelude.{
  ℕ, Bool, true, false, not, ◌&&◌, ◌||◌, Option, none, some, List, [], ◌∷◌, ◌++◌, ◌≡◌, ◌∙◌, refl,
  inl, inr, arith, leb, ltb, any, map, length, Bool-cases, Option-cases,
}
use mcp_server_db2i.Prelude.Text.{codes}
use mcp_server_db2i.SqlSecurity.{Unterminated, unquote, mask, normalize_for_scan}
use mcp_server_db2i.SqlSecurity.Engine.{
  is_db2_separator, Check, data_change_shapes, regex_checks, query_start_words, first_word,
  one_statement, escape_regex, contains,
}
use mcp_server_db2i.SqlSecurity.Validator.{
  Node, SecurityConfig, is_nil, validate_query_ast, failed_checks, second_violation,
  start_violation, validate_query_regex, check_forbidden_keywords, violation_subject, not_reported,
  read_only_violations, validate_query,
}

append-is_nil {ℓ} : {A : Type ℓ} (xs ys : List A) → is_nil (xs ++ ys) ≡ is_nil xs && is_nil ys
append-is_nil [] ys = refl
append-is_nil (x ∷ xs) ys = refl

map-is_nil {ℓ κ} :
    {A : Type ℓ} {B : Type κ} (f : A → B) (xs : List A) → is_nil (map f xs) ≡ is_nil xs
map-is_nil f [] = refl
map-is_nil f (x ∷ xs) = refl

four-is_nil {ℓ} :
    {A : Type ℓ} (f : A → A) (ws xs ys zs : List A)
    → is_nil (ws ++ map f xs ++ ys ++ zs) ≡ (is_nil ws && (is_nil xs && (is_nil ys && is_nil zs)))
four-is_nil f (w ∷ ws) xs ys zs = refl
four-is_nil f [] (x ∷ xs) ys zs = refl
four-is_nil f [] [] ys zs = append-is_nil ys zs

leb_of : (m n : ℕ) (b : Bool) → ltb m n ≡ b → leb n m ≡ not b
leb_of m n b h = ground arith

abbrev pub is_terminated : Option Unterminated → Bool
is_terminated none = true
is_terminated (some u) = false

module _ (to_upper_case : List ℕ → List ℕ) (matches : List ℕ → List ℕ → Bool)
    (astify : List ℕ → Option Node) where
  failed_checks-is_nil :
      (checks : List Check) (query : List ℕ)
      → is_nil (failed_checks to_upper_case matches astify checks query)
        ≡ not (any (λ c. matches c.0 query) checks)
  unfolding failed_checks
  failed_checks-is_nil [] query = refl
  failed_checks-is_nil ((pattern, message) ∷ checks) query =
      elim (Bool-cases (matches pattern query)) [
        | inl found ↦ rw (found, failed_checks) refl
        | inr missing ↦ rw (missing, failed_checks) (failed_checks-is_nil checks query)
      ]

  abbrev pub keyword_pattern : List ℕ → List ℕ
  keyword_pattern keyword = codes "\\b" ++ escape_regex keyword ++ codes "\\b"

  keywords-is_nil :
      (query : List ℕ) (keywords : List (List ℕ))
      → is_nil (check_forbidden_keywords to_upper_case matches astify query keywords)
        ≡ not (any (λ k. matches (keyword_pattern k) query) keywords)
  unfolding check_forbidden_keywords failed_checks
  keywords-is_nil query [] = refl
  keywords-is_nil query (k ∷ ks) = elim (Bool-cases (matches (keyword_pattern k) query)) [
    | inl found ↦ rw (found, check_forbidden_keywords, failed_checks) refl
    | inr missing ↦ rw (missing, check_forbidden_keywords, failed_checks) (keywords-is_nil query ks)
  ]

  -- Without reports, no violation is left out at first.
  not_reported-is_nil :
      (ast vs : List (List ℕ))
      → is_nil (
          ast
          ++ not_reported to_upper_case matches astify
              (map (violation_subject to_upper_case matches astify) ast)
              vs)
        ≡ is_nil ast && is_nil vs
  unfolding not_reported
  not_reported-is_nil [] [] = refl
  not_reported-is_nil [] (v ∷ vs) = refl
  not_reported-is_nil (a ∷ ast) vs = refl

  second-is_nil :
      (query : List ℕ)
      → is_nil (second_violation to_upper_case matches astify query) ≡ one_statement query
  second-is_nil query = elim (Bool-cases (one_statement query)) [
    | inl one ↦ rw one refl
    | inr more ↦ rw more refl
  ]

  start-is_nil :
      (query : List ℕ)
      → is_nil (start_violation to_upper_case matches astify query)
        ≡ contains query_start_words (first_word query)
  start-is_nil query = elim (Bool-cases (contains query_start_words (first_word query))) [
    | inl starts ↦ rw starts refl
    | inr other ↦ rw other refl
  ]

  abbrev pub regex_passes : List ℕ → List ℕ → Bool
  regex_passes query masked =
      not (any (λ c. matches c.0 query) regex_checks)
      && (not (any (λ c. matches c.0 masked) data_change_shapes)
          && (one_statement query && contains query_start_words (first_word query)))

  regex-is_nil :
      (query masked : List ℕ)
      → is_nil (validate_query_regex to_upper_case matches astify query masked)
        ≡ regex_passes query masked
  unfolding validate_query_regex
  regex-is_nil query masked =
      four-is_nil (λ operation. codes "Dangerous operation detected: " ++ operation)
        (failed_checks to_upper_case matches astify regex_checks query)
        (failed_checks to_upper_case matches astify data_change_shapes masked)
        (second_violation to_upper_case matches astify query)
        (start_violation to_upper_case matches astify query)
      ∙ rw
          (
            failed_checks-is_nil regex_checks query,
            failed_checks-is_nil data_change_shapes masked,
            second-is_nil query,
            start-is_nil query,
          )
          refl

  -- A query is accepted exactly if it is not longer than the limit, none of the forbidden keywords
  -- stands in its scanned text and, in read-only mode, it leaves no string, identifier or comment
  -- open, its syntax tree has no violation, no pattern matches its text and no shape its masked text,
  -- nothing but blanks follows its first semicolon, and it starts with SELECT, WITH or VALUES.
  pub validate_query-is_valid :
      (query : List ℕ) (config : SecurityConfig)
      → (validate_query to_upper_case matches astify query config).is_valid ≡ (
          leb (length query) config.max_query_length
          && ((not config.read_only
                || (is_terminated (normalize_for_scan is_db2_separator query unquote).unterminated
                    && (is_nil (validate_query_ast to_upper_case matches astify query)
                        && regex_passes
                            (normalize_for_scan is_db2_separator query unquote).text
                            (normalize_for_scan is_db2_separator query mask).text)))
              && not (
                  any
                    (λ k.
                      matches
                        (keyword_pattern k)
                        (normalize_for_scan is_db2_separator query unquote).text)
                    config.forbidden_keywords)))
  unfolding validate_query
  validate_query-is_valid query config =
      let unquoted = normalize_for_scan is_db2_separator query unquote in
      let masked = normalize_for_scan is_db2_separator query mask in
      let keywords = keywords-is_nil unquoted.text config.forbidden_keywords in
      elim (Bool-cases (ltb config.max_query_length (length query))) [
        | inl long ↦ rw (long, validate_query) (rw (leb_of _ _ true long) refl)
        | inr short ↦ elim (Bool-cases config.read_only) [
          | inr other ↦ rw (short, other, validate_query) (rw (leb_of _ _ false short) keywords)
          | inl only ↦ elim (Option-cases unquoted.unterminated) [
            | inr (u, left) ↦
                rw (short, only, left, validate_query) (rw (leb_of _ _ false short) refl)
            | inl closed ↦
                rw (short, only, closed, validate_query)
                  (rw (leb_of _ _ false short) (
                    append-is_nil (read_only_violations to_upper_case matches astify query) (
                      check_forbidden_keywords to_upper_case matches astify unquoted.text
                        config.forbidden_keywords)
                    ∙ rw
                        (
                          not_reported-is_nil
                              (validate_query_ast to_upper_case matches astify query)
                              (validate_query_regex to_upper_case matches astify unquoted.text
                                masked.text),
                          regex-is_nil unquoted.text masked.text,
                          keywords,
                        )
                        refl))
          ]
        ]
      ]
