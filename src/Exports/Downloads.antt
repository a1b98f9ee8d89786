-- ===== src/Exports/Downloads.antt =====
-- src/export/store.ts: how often a download link works, and what the sweep changes.
use mcp_server_db2i.Prelude.{
  ℕ, ◌+◌, ◌-◌, ◌≤◌, ◌<◌, String, Bool, ◌&&◌, ltb, true, false, not, Option, none, some, List, [],
  ◌∷◌, ◌≡◌, ◌∙◌, refl, sym, ap, inl, inr, arith, Option-cases, Bool-cases, if◌then◌else◌, leb, ltb,
  str_eq, eq_iff, min, map, is_some, All,
}
use mcp_server_db2i.Prelude.Table.{
  Table, get, keep, keys_where, values, IsDistinct, get-set, get-delete, get-keep, keep_if,
  delete_all-keys_where, delete_all,
}
use mcp_server_db2i.Exports.{
  ExportConfig, ExportEntry, ExportStore, is_export_id, peek_export, take_export, take_entry,
  live_entry, sweep_expired,
}

-- A download request: the id in the link, and the time.
abbrev pub Request : Type 0
Request = String × ℕ

unfoldable pub asked : String → List Request → ℕ
asked k [] = 0
asked k ((j, now) ∷ rs) = (if str_eq j k then 1 else 0) + asked k rs

abbrev deletes : Option (ExportEntry × Bool) → Bool
deletes none = false
deletes (some (e, after)) = after

-- How many of the requests for the id get the file.
unfoldable pub served : String → ExportStore → List Request → ℕ
served k s [] = 0
served k s ((j, now) ∷ rs) =
    (if str_eq j k then (if is_some (take_export j now s).1 then 1 else 0) else 0)
    + served k (take_export j now s).0 rs

-- How many of the requests for the id must delete the file afterwards.
unfoldable pub deleted : String → ExportStore → List Request → ℕ
unfolding deletes
deleted k s [] = 0
deleted k s ((j, now) ∷ rs) =
    (if str_eq j k then (if deletes (take_export j now s).1 then 1 else 0) else 0)
    + deleted k (take_export j now s).0 rs

abbrev pub AllBefore : String → ℕ → List Request → Type 0
AllBefore k t [] = Unit
AllBefore k t ((j, now) ∷ rs) = ((str_eq j k ≡ true) → now < t) × AllBefore k t rs

module _ (k : String) (now : ℕ) (s : ExportStore) where
  config-take_export : (take_export k now s).0.config ≡ s.config
  unfolding take_export take_entry peek_export
  config-take_export = ground arith

  get-take_export_ne :
      (j : String) → str_eq k j ≡ false → get j (take_export k now s).0.entries ≡ get j s.entries
  unfolding take_export take_entry peek_export
  get-take_export_ne j ne = elim (Option-cases (get k s.entries)) [
    | inl missing ↦ rw (missing, take_export, peek_export) (ground arith)
    | inr (e, found) ↦ ground (
      arith,
      get-set k j (record e { downloads = e.downloads + 1 }) s.entries,
      get-delete k j s.entries,
    )
  ]

  -- A link that is not in the registry leads nowhere.
  take_export_absent :
      get k s.entries ≡ none → ((take_export k now s).0 ≡ s) × ((take_export k now s).1 ≡ none)
  unfolding take_export peek_export
  take_export_absent missing = rw (missing, take_export, peek_export) (ground arith)

  -- A live link is served, and counted; the last allowed download takes it out of the registry.
  take_export_live :
      (c : ExportConfig) (e : ExportEntry)
      → s.config ≡ some c
      → is_export_id k ≡ true
      → get k s.entries ≡ some e
      → now < e.expires_at
      → ((take_export k now s).1
          ≡ some (record e { downloads = e.downloads + 1 }, leb c.max_downloads (e.downloads + 1)))
        × (get k (take_export k now s).0.entries ≡ (
            if leb c.max_downloads (e.downloads + 1)
            then none
            else some (record e { downloads = e.downloads + 1 })))
  unfolding take_export take_entry peek_export
  take_export_live c e on shape found early = ground (
    arith,
    get-set k k (record e { downloads = e.downloads + 1 }) s.entries,
    get-delete k k s.entries,
    eq_iff k k,
  )

module _ (k : String) where
  served_absent :
      (rs : List Request) (s : ExportStore)
      → get k s.entries ≡ none
      → (served k s rs ≡ 0) × (deleted k s rs ≡ 0)
  unfolding served deleted
  served_absent [] s missing = (refl, refl)
  served_absent ((j, now) ∷ rs) s missing = elim (Bool-cases (str_eq j k)) [
    | inl mine ↦
        let gone = take_export_absent j now s (rw ((eq_iff j k).0 mine) missing) in
        let rest = served_absent rs (take_export j now s).0 (rw gone.0 missing) in
        rw (mine, gone.1) (omega arith, omega arith)
    | inr other ↦
        let rest =
          served_absent rs (take_export j now s).0 (get-take_export_ne j now s k other ∙ missing) in
        rw other (omega arith, omega arith)
  ]

  module _ (c : ExportConfig) (shape : is_export_id k ≡ true) where
    served_from :
        (rs : List Request) (s : ExportStore) (e : ExportEntry)
        → s.config ≡ some c
        → get k s.entries ≡ some e
        → e.downloads < c.max_downloads
        → AllBefore k e.expires_at rs
        → (served k s rs ≡ min (asked k rs) (c.max_downloads - e.downloads))
          × (deleted k s rs ≡ (if leb (c.max_downloads - e.downloads) (asked k rs) then 1 else 0))
    unfolding served deleted asked
    served_from [] s e on found room early = (omega arith, ground arith)
    served_from ((j, now) ∷ rs) s e on found room early = elim (Bool-cases (str_eq j k)) [
      | inr other ↦
          let rest =
            served_from rs (take_export j now s).0 e (config-take_export j now s ∙ on)
              (get-take_export_ne j now s k other ∙ found) room early.1 in
          rw other (omega arith, ground arith)
      | inl mine ↦
          let same : j ≡ k = (eq_iff j k).0 mine in
          let here =
            take_export_live j now s c e on (rw same shape) (rw same found) (early.0 mine) in
          elim (Bool-cases (leb c.max_downloads (e.downloads + 1))) [
            | inl last ↦
                let rest =
                  served_absent rs (take_export j now s).0 (rw (← same) (rw last at here.1)) in
                rw (mine, here.0, last) (ground arith, ground arith)
            | inr more ↦
                let rest =
                  served_from rs (take_export j now s).0 (record e { downloads = e.downloads + 1 })
                    (config-take_export j now s ∙ on) (rw (← same) (rw more at here.1))
                    (ground arith) early.1 in
                rw (mine, here.0, more) (ground arith, ground arith)
          ]
    ]

-- Until it expires, a registered download link works exactly as many times as downloads are left,
-- however the requests are interleaved with those for other links; and exactly one request, the
-- one that uses up the last download, has to delete the file.
pub served_exactly :
    (k : String) (rs : List Request) (s : ExportStore) (c : ExportConfig) (e : ExportEntry)
    → is_export_id k ≡ true
    → s.config ≡ some c
    → get k s.entries ≡ some e
    → e.downloads < c.max_downloads
    → AllBefore k e.expires_at rs
    → (served k s rs ≡ min (asked k rs) (c.max_downloads - e.downloads))
      × (deleted k s rs ≡ (if leb (c.max_downloads - e.downloads) (asked k rs) then 1 else 0))
served_exactly k rs s c e shape = served_from k c shape rs s e

-- Is the entry of a lookup there and not expired?
abbrev pub is_fresh : ℕ → Option ExportEntry → Bool
is_fresh now none = false
is_fresh now (some e) = ltb now e.expires_at

-- With exports enabled, a download is served exactly when a HEAD request for the link is answered, which
-- is when the link has the form of an export id and leads to an entry that has not expired.
pub take_export-peek_export :
    (k : String) (now : ℕ) (s : ExportStore) (c : ExportConfig)
    → s.config ≡ some c
    → (is_some (take_export k now s).1 ≡ is_some (peek_export k now s))
      × (is_some (peek_export k now s) ≡ (is_export_id k && is_fresh now (get k s.entries)))
unfolding take_export peek_export take_entry
take_export-peek_export k now s c on = (ground arith, ground arith)

-- Every entry stands under its own id.
abbrev pub IsKeyed : Table ExportEntry → Type 0
IsKeyed = All (λ (x : String × ExportEntry). x.1.id ≡ x.0)

ids-keep :
    (p : ExportEntry → Bool) (m : Table ExportEntry)
    → IsKeyed m
    → map (λ (e : ExportEntry). e.id) (values (keep p m)) ≡ keys_where p m
unfolding keep keys_where
ids-keep p [] h = refl
ids-keep p ((k, e) ∷ m) h = ground (arith, ids-keep p m h.1)

-- What peekExport answers for a stored entry.
abbrev seen : ℕ → Option ExportEntry → Option ExportEntry
seen now none = none
seen now (some e) = live_entry now e

peek_export-seen :
    (k : String) (now : ℕ) (s : ExportStore)
    → peek_export k now s ≡ (if is_export_id k then seen now (get k s.entries) else none)
unfolding peek_export
peek_export-seen k now s = ground arith

seen-keep_if :
    (before now : ℕ) (o : Option ExportEntry)
    → before ≤ now
    → seen now (keep_if (λ e. not (leb e.expires_at before)) o) ≡ seen now o
seen-keep_if before now none le = refl
seen-keep_if before now (some e) le = ground arith

-- The sweep keeps exactly the entries that have not expired, and no link that still works, or will
-- be asked for later, is affected by it.
pub peek_export-sweep_expired :
    (k : String) (before now : ℕ) (s : ExportStore)
    → IsDistinct s.entries
    → IsKeyed s.entries
    → before ≤ now
    → ((sweep_expired before s).0.entries ≡ keep (λ e. not (leb e.expires_at before)) s.entries)
      × (peek_export k now (sweep_expired before s).0 ≡ peek_export k now s)
unfolding sweep_expired
peek_export-sweep_expired k before now s d keyed le =
    let kept : (sweep_expired before s).0.entries
        ≡ keep (λ e. not (leb e.expires_at before)) s.entries =
      ap (λ ks. delete_all ks s.entries) (ids-keep (λ e. leb e.expires_at before) s.entries keyed)
      ∙ delete_all-keys_where (λ e. leb e.expires_at before) s.entries d in
    let found = ap (get k) kept ∙ get-keep (λ e. not (leb e.expires_at before)) k s.entries d in
    (
      kept,
      peek_export-seen k now (sweep_expired before s).0
          ∙ ap (λ o. if is_export_id k then seen now o else none) found
          ∙ ap (λ o. if is_export_id k then o else none)
              (seen-keep_if before now (get k s.entries) le)
          ∙ sym (peek_export-seen k now s),
    )
