-- ===== src/Exports/Entries.antt =====
-- src/export/store.ts: the bytes of the stored files, and what a download and a finished file change.
use mcp_server_db2i.Prelude.{
  ℕ, ◌+◌, ◌≤◌, String, Bool, true, false, Option, none, some, List, [], ◌∷◌, ◌≡◌, ◌∙◌, refl, ap,
  inl, inr, arith, Option-cases, Bool-cases, leb,
}
use mcp_server_db2i.Prelude.Table.{Table, get, set, delete, delete_all}
use mcp_server_db2i.Exports.{
  ExportConfig, ExportEntry, ExportSlot, Details, ExportStore, sum_bytes, complete, take_export,
  take_entry, take_found, peek_export,
}

pub sum_bytes-set-le :
    (k : String) (e : ExportEntry) (m : Table ExportEntry)
    → sum_bytes (set k e m) ≤ e.bytes + sum_bytes m
unfolding sum_bytes set
sum_bytes-set-le k e [] = omega arith
sum_bytes-set-le k e ((i, w) ∷ m) = ground (arith, sum_bytes-set-le k e m)

-- A counted download changes no size.
pub sum_bytes-set_same :
    (k : String) (e e' : ExportEntry) (m : Table ExportEntry)
    → get k m ≡ some e
    → e'.bytes ≡ e.bytes
    → sum_bytes (set k e' m) ≡ sum_bytes m
unfolding sum_bytes set get
sum_bytes-set_same k e e' [] h same = cc
sum_bytes-set_same k e e' ((i, w) ∷ m) h same = ground (arith, sum_bytes-set_same k e e' m)

pub sum_bytes-delete-le :
    (k : String) (m : Table ExportEntry) → sum_bytes (delete k m) ≤ sum_bytes m
unfolding sum_bytes delete
sum_bytes-delete-le k [] = omega arith
sum_bytes-delete-le k ((i, w) ∷ m) = ground (arith, sum_bytes-delete-le k m)

pub sum_bytes-delete_all-le :
    (ks : List String) (m : Table ExportEntry) → sum_bytes (delete_all ks m) ≤ sum_bytes m
unfolding delete_all
sum_bytes-delete_all-le [] m = omega arith
sum_bytes-delete_all-le (k ∷ ks) m =
    omega (arith, sum_bytes-delete-le k m, sum_bytes-delete_all-le ks (delete k m))

pub take_entry_entries :
    (c : ExportConfig) (id : String) (e : ExportEntry) (s : ExportStore)
    → get id s.entries ≡ some e
    → (es : Table ExportEntry) × ((take_entry c id e s).0 ≡ record s { entries = es })
      × (sum_bytes es ≤ sum_bytes s.entries)
unfolding take_entry
take_entry_entries c id e s found = elim (Bool-cases (leb c.max_downloads (e.downloads + 1))) [
  | inl last ↦ (delete id s.entries, rw (last, take_entry), sum_bytes-delete-le id s.entries)
  | inr more ↦
      let counted : ExportEntry = record e { downloads = e.downloads + 1 } in
      (
        set id counted s.entries,
        rw (more, take_entry),
        omega (arith, sum_bytes-set_same id e counted s.entries found refl),
      )
]

pub take_export-take_entry :
    (c : ExportConfig) (id : String) (now : ℕ) (e : ExportEntry) (s : ExportStore)
    → s.config ≡ some c
    → peek_export id now s ≡ some e
    → (take_export id now s).0 ≡ (take_entry c id e s).0
unfolding take_export
take_export-take_entry c id now e s on live =
    ap (λ o. (take_found id s o).0) live
    ∙ ap
        (λ (o : Option ExportConfig).
          (elim o as (λ x. ExportStore × Option (ExportEntry × Bool)) [
            | none ↦ (s, none)
            | some x ↦ take_entry x id e s
          ]).0)
        on

pub peek_export_found :
    (id : String) (now : ℕ) (e : ExportEntry) (s : ExportStore)
    → peek_export id now s ≡ some e
    → get id s.entries ≡ some e
unfolding peek_export
peek_export_found id now e s live = ground arith

-- A download request changes nothing but the entries, and adds no bytes.
pub take_export_entries :
    (id : String) (now : ℕ) (s : ExportStore)
    → (es : Table ExportEntry) × ((take_export id now s).0 ≡ record s { entries = es })
      × (sum_bytes es ≤ sum_bytes s.entries)
unfolding take_export peek_export
take_export_entries id now s = elim (Option-cases (peek_export id now s)) [
  | inl missing ↦ (s.entries, rw (missing, take_export), omega arith)
  | inr (e, live) ↦ elim (Option-cases s.config) [
    | inl off ↦ (s.entries, ground arith, omega arith)
    | inr (c, on) ↦
        let found = peek_export_found id now e s live in
        let (es, same, small) = take_entry_entries c id e s found in
        (es, take_export-take_entry c id now e s on live ∙ same, small)
  ]
]

-- Completing registers at most one file.
pub complete_entries :
    (slot : ExportSlot) (renamed : Bool) (d : Details) (now : ℕ) (s : ExportStore)
    → (es : Table ExportEntry) × ((complete slot renamed d now s).0 ≡ record s { entries = es })
      × (sum_bytes es ≤ d.bytes + sum_bytes s.entries)
unfolding complete
complete_entries slot false d now s = (s.entries, refl, omega arith)
complete_entries slot true d now s =
    (set slot.id _ s.entries, refl, sum_bytes-set-le slot.id _ s.entries)
