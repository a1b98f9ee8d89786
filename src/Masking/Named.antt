-- ===== src/Masking/Named.antt =====
-- src/customTools/masking.ts: which masked tables the parsed names of a statement name.
use mcp_server_db2i.Prelude.{
  ℕ, Bool, true, false, ◌&&◌, ◌||◌, Option, none, some, List, [], ◌∷◌, ◌++◌, map, ◌≡◌, ◌∙◌, ◌↔◌,
  ◌⊎◌, refl, sym, ap, arith, if◌then◌else◌, any, filter, str_eq, eq_iff, inl, inr, Bool-cases,
}
use mcp_server_db2i.Prelude.Text.{upper, codes_eq, codes_eq_iff}
use mcp_server_db2i.Masking.{MaskingMap}
use mcp_server_db2i.Masking.Check.{holds}
use mcp_server_db2i.Masking.Tables.{
  ParsedName, trim_start, trim_end, normal_or, keys, ends_with, key_of, keys_of_table, keys_of_name,
  keys_of_row, masked_tables_from_parsed, masked_tables_from_parsed-any,
}

-- A name without the blanks around it, in upper case; empty where there is none.
abbrev pub plain : Option (List ℕ) → List ℕ
plain none = []
plain (some text) = map upper (trim_start (trim_end text))

-- The schema of a row: its own, or the default one, or the empty text.
abbrev pub either : List ℕ → List ℕ → List ℕ
either [] other = other
either (c ∷ s) other = c ∷ s

-- The key is SCHEMA.TABLE, or, where no schema is known, ends in .TABLE.
abbrev pub IsKeyOf : List ℕ → List ℕ → List ℕ → Type 0
IsKeyOf [] table k = (schema : List ℕ) × (k ≡ schema ++ b'.' ∷ table)
IsKeyOf (c ∷ s) table k = k ≡ (c ∷ s) ++ b'.' ∷ table

-- The row is one of a table or a view with a name, and the key is that of a masked table with this name.
pub record IsNamed (masking : MaskingMap) (default_schema : Option (List ℕ)) (row : ParsedName)
    (k : List ℕ) : Type 0 where
  pub is_table : (row.name_type ≡ "TABLE") ⊎ (row.name_type ≡ "VIEW")
  pub first : ℕ
  pub rest : List ℕ
  pub named : row.name ≡ some (first ∷ rest)
  pub masked : holds k (keys masking) ≡ true
  pub key : IsKeyOf (either (plain row.schema) (plain default_schema)) (plain row.name) k

abbrev pub IsNamedBy : MaskingMap → Option (List ℕ) → List ParsedName → List ℕ → Type 0
IsNamedBy masking default_schema [] k = ⊥
IsNamedBy masking default_schema (row ∷ rows) k =
    IsNamed masking default_schema row k ⊎ IsNamedBy masking default_schema rows k

ends_with-append : (suffix start : List ℕ) → ends_with suffix (start ++ suffix) ≡ true
unfolding ends_with codes_eq
ends_with-append [] [] = refl
ends_with-append (c ∷ s) [] = ground (arith, (codes_eq_iff (c ∷ s) (c ∷ s)).1 refl)
ends_with-append suffix (d ∷ start) = ground (arith, ends_with-append suffix start)

ends_with-split :
    (suffix s : List ℕ) → ends_with suffix s ≡ true → (start : List ℕ) × (s ≡ start ++ suffix)
unfolding ends_with
ends_with-split suffix [] h = ([], (codes_eq_iff [] suffix).0 h)
ends_with-split suffix (c ∷ s) h = elim (Bool-cases (codes_eq (c ∷ s) suffix)) [
  | inl whole ↦ ([], (codes_eq_iff (c ∷ s) suffix).0 whole)
  | inr longer ↦
      let (start, split) = ends_with-split suffix s (ground (arith, h, longer)) in
      (c ∷ start, ap (λ (u : List ℕ). c ∷ u) split)
]

holds-filter :
    (p : List ℕ → Bool) (k : List ℕ) (ns : List (List ℕ))
    → holds k (filter p ns) ≡ (holds k ns && p k)
holds-filter p k [] = refl
holds-filter p k (n ∷ ns) = elim (Bool-cases (codes_eq n k)) [
  | inl same ↦
      let e : p n ≡ p k = ap p ((codes_eq_iff n k).0 same) in
      ground (arith, holds-filter p k ns, e, same)
  | inr other ↦ ground (arith, holds-filter p k ns, other)
]

-- The schema that the code looks for.
abbrev schema_of : List ℕ → Option (List ℕ)
schema_of [] = none
schema_of (c ∷ s) = some (c ∷ s)

fallback_known : (text : Option (List ℕ)) → normal_or text none ≡ schema_of (plain text)
unfolding normal_or codes_eq
fallback_known none = refl
fallback_known (some text) = go (map upper (trim_start (trim_end text)))
  where
    go : (s : List ℕ) → (if codes_eq s [] then none else some s) ≡ schema_of s
    go [] = refl
    go (c ∷ s) = refl

either_known :
    (text : Option (List ℕ)) (other : List ℕ)
    → normal_or text (schema_of other) ≡ schema_of (either (plain text) other)
unfolding normal_or codes_eq
either_known none other = refl
either_known (some text) other = go (map upper (trim_start (trim_end text)))
  where
    go :
        (s : List ℕ)
        → (if codes_eq s [] then schema_of other else some s) ≡ schema_of (either s other)
    go [] = refl
    go (c ∷ s) = refl

keys_of_table-IsKeyOf :
    (masking : MaskingMap) (schema table k : List ℕ)
    → (holds k (keys_of_table masking (schema_of schema) table) ≡ true)
      ↔ ((holds k (keys masking) ≡ true) × IsKeyOf schema table k)
keys_of_table-IsKeyOf masking [] table k = (
  λ h.
      let both = sym (holds-filter (ends_with (b'.' ∷ table)) k (keys masking)) ∙ h in
      (ground (arith, both), ends_with-split (b'.' ∷ table) k (ground (arith, both))),
  λ (there, (start, e)).
      let ends : ends_with (b'.' ∷ table) k ≡ true =
        ap (ends_with (b'.' ∷ table)) e ∙ ends_with-append (b'.' ∷ table) start in
      holds-filter (ends_with (b'.' ∷ table)) k (keys masking) ∙ ground (arith, there, ends),
)
keys_of_table-IsKeyOf masking (c ∷ s) table k =
    let key = key_of (c ∷ s) table in
    elim (Bool-cases (holds key (keys masking))) [
      | inl there ↦ (
        λ h.
            let same : key ≡ k = (codes_eq_iff key k).0 (ground (arith, rw there at h)) in
            (ap (λ (u : List ℕ). holds u (keys masking)) (sym same) ∙ there, sym same),
        λ (found, e). rw there (ground (arith, (codes_eq_iff key k).1 (sym e))),
      )
      | inr missing ↦ (
        λ h. absurd (ground (arith, rw missing at h)),
        λ (found, e). absurd (
            let lost : holds k (keys masking) ≡ false =
              ap (λ (u : List ℕ). holds u (keys masking)) e ∙ missing in
            ground (arith, lost, found)),
      )
    ]

-- The name of the row and the keys that its table has.
record IsNamedAs (masking : MaskingMap) (schema : List ℕ) (name : Option (List ℕ)) (k : List ℕ)
    : Type 0 where
  first : ℕ
  rest : List ℕ
  named : name ≡ some (first ∷ rest)
  masked : holds k (keys masking) ≡ true
  key : IsKeyOf schema (plain name) k

keys_of_name-IsNamedAs :
    (masking : MaskingMap) (default : List ℕ) (schema name : Option (List ℕ)) (k : List ℕ)
    → (holds k (keys_of_name masking (schema_of default) schema name) ≡ true)
      ↔ IsNamedAs masking (either (plain schema) default) name k
keys_of_name-IsNamedAs masking default schema none k =
    (λ h. cc, λ h. absurd (let e = h.named in cc))
keys_of_name-IsNamedAs masking default schema (some []) k =
    (λ h. cc, λ h. absurd (let e = h.named in cc))
keys_of_name-IsNamedAs masking default schema (some (c ∷ name)) k =
    let table = plain (some (c ∷ name)) in
    let known = either_known schema default in
    let both = keys_of_table-IsKeyOf masking (either (plain schema) default) table k in
    (
      λ h.
          let (there, key) = both.0 (rw known at h) in
          record { first = c; rest = name; named = refl; masked = there; key = key },
      λ n. rw known (both.1 (n.masked, n.key)),
    )

keys_of_row-IsNamed :
    (masking : MaskingMap) (default_schema : Option (List ℕ)) (row : ParsedName) (k : List ℕ)
    → (holds k (keys_of_row masking (normal_or default_schema none) row) ≡ true)
      ↔ IsNamed masking default_schema row k
unfolding keys_of_row
keys_of_row-IsNamed masking default_schema row k =
    let names = keys_of_name-IsNamedAs masking (plain default_schema) row.schema row.name k in
    let none_known = fallback_known default_schema in
    elim (Bool-cases (str_eq row.name_type "TABLE" || str_eq row.name_type "VIEW")) [
      | inr other ↦ (
        λ h. absurd (ground (arith, rw (other, keys_of_row) at h)),
        λ n. absurd (elim n.is_table [
          | inl e ↦ ground (arith, other, (eq_iff row.name_type "TABLE").1 e)
          | inr e ↦ ground (arith, other, (eq_iff row.name_type "VIEW").1 e)
        ]),
      )
      | inl of_table ↦ (
        λ h.
            let n = names.0 (rw (of_table, keys_of_row, none_known) at h) in
            record {
              is_table = elim (Bool-cases (str_eq row.name_type "TABLE")) [
                | inl e ↦ inl ((eq_iff row.name_type "TABLE").0 e)
                | inr e ↦ inr ((eq_iff row.name_type "VIEW").0 (ground (arith, of_table, e)))
              ];
              first = n.first;
              rest = n.rest;
              named = n.named;
              masked = n.masked;
              key = n.key;
            },
        λ n.
            rw (of_table, keys_of_row, none_known)
              (names.1 (record {
                first = n.first;
                rest = n.rest;
                named = n.named;
                masked = n.masked;
                key = n.key;
              })),
      )
    ]

any-IsNamedBy :
    (masking : MaskingMap) (default_schema : Option (List ℕ)) (rows : List ParsedName) (k : List ℕ)
    → (any (λ r. holds k (keys_of_row masking (normal_or default_schema none) r)) rows ≡ true)
      ↔ IsNamedBy masking default_schema rows k
any-IsNamedBy masking default_schema [] k = (λ h. cc, λ h. absurd h)
any-IsNamedBy masking default_schema (row ∷ rows) k =
    let one = keys_of_row-IsNamed masking default_schema row k in
    let more = any-IsNamedBy masking default_schema rows k in
    (
      λ h. elim (Bool-cases (holds k (keys_of_row masking (normal_or default_schema none) row))) [
        | inl this ↦ inl (one.0 this)
        | inr other ↦ inr (more.0 (ground (arith, h, other)))
      ],
      λ n. elim n [
        | inl this ↦ ground (arith, one.1 this)
        | inr later ↦ ground (arith, more.1 later)
      ],
    )

-- maskedTablesFromParsed finds a key exactly when it is one of a masked table and one of the rows, for
-- a TABLE or a VIEW with a name that is not empty, names it: the key is SCHEMA.TABLE, trimmed and in upper
-- case, with the schema of the row or else the default schema, or, where neither is given, it is any
-- key that ends in .TABLE.
pub masked_tables_from_parsed-IsNamedBy :
    (k : List ℕ) (masking : MaskingMap) (default_schema : Option (List ℕ)) (rows : List ParsedName)
    → (holds k (masked_tables_from_parsed rows masking default_schema) ≡ true)
      ↔ IsNamedBy masking default_schema rows k
masked_tables_from_parsed-IsNamedBy k masking default_schema rows =
    let all = masked_tables_from_parsed-any k masking default_schema rows in
    let named = any-IsNamedBy masking default_schema rows k in
    (λ h. named.0 (sym all ∙ h), λ n. all ∙ named.1 n)
