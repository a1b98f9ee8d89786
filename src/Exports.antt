-- ===== src/Exports.antt =====
-- src/export/store.ts: the registry of export files and its limits. A function takes the store and
-- the clock in milliseconds, and returns the new store beside its result. Random ids are arguments.
-- The file system is left out: `renamed` says whether the rename of a finished file succeeded, and
-- `unlinked` records the paths that are deleted.
pub mod Entries
pub mod Budget
pub mod Downloads
mod Tests
use Prim.Native.String
use mcp_server_db2i.Prelude.{
  ℕ, ◌+◌, ◌*◌, String, Bool, true, false, not, ◌&&◌, ◌||◌, Option, none, some, List, [], ◌∷◌, ◌++◌,
  leb, ltb, ◌==◌, if◌then◌else◌, length, all, map,
}
use mcp_server_db2i.Prelude.Table.{Table, get, set, delete, delete_all, keep, values}
use mcp_server_db2i.Prelude.Text.{codes, is_letter, is_digit}
use mcp_server_db2i.Prelude.Int.{ℤ, pos, ◌+ℤ◌, ◌-ℤ◌, leb_ℤ, ltb_ℤ}

-- The settings of getExportConfig() that the store reads.
pub record ExportConfig : Type 0 where
  pub dir : String
  pub max_bytes : ℕ
  pub ttl_minutes : ℕ
  pub max_downloads : ℕ
  pub max_concurrent : ℕ
  pub dir_max_bytes : ℕ

pub data ExportFormat : Type 0 where
  csv xlsx : ExportFormat

abbrev pub format_text : ExportFormat → String
format_text csv = "csv"
format_text xlsx = "xlsx"

pub record ExportEntry : Type 0 where
  pub id : String
  pub path : String
  pub filename : String
  pub format : ExportFormat
  pub owner : String
  pub bytes : ℕ
  pub rows : ℕ
  pub expires_at : ℕ
  pub downloads : ℕ

-- What the caller of `complete` gives.
pub record Details : Type 0 where
  pub filename : String
  pub format : ExportFormat
  pub owner : String
  pub bytes : ℕ
  pub rows : ℕ

-- An export that has started: what its closures hold.
pub record ExportSlot : Type 0 where
  pub id : String
  pub part_path : String
  pub final_path : String
  pub settings : ExportConfig
  pub released : Bool

-- `running` and `reservedBytes` are signed, since `release` subtracts without a check.
pub record ExportStore : Type 0 where
  pub config : Option ExportConfig
  pub sweeping : Bool
  pub entries : Table ExportEntry
  pub slots : Table ExportSlot
  pub running : ℤ
  pub reserved_bytes : ℤ
  pub unlinked : List String

pub data ExportError : Type 0 where
  not_enabled too_many_running directory_full : ExportError

pub data Begun : Type 0 where
  begun : ExportStore → ExportSlot → Begun
  refused : ExportError → Begun

-- The part of initExportStore after the directory is checked and cleaned.
unfoldable pub init_export_store : ExportConfig → ExportStore → ExportStore
init_export_store c s = record s { config = some c; sweeping = true }

unfoldable pub close_export_store : ExportStore → ExportStore
close_export_store s = record s {
  config = none;
  sweeping = false;
  entries = [];
  running = pos 0;
  reserved_bytes = pos 0;
  unlinked = s.unlinked ++ map (λ (e : ExportEntry). e.path) (values s.entries);
}

unfoldable pub sum_bytes : Table ExportEntry → ℕ
sum_bytes [] = 0
sum_bytes ((_, e) ∷ es) = e.bytes + sum_bytes es

unfoldable pub stored_bytes : ExportStore → ℕ
unfolding sum_bytes
stored_bytes s = sum_bytes s.entries

infixl 66 ◌⊹◌
abbrev ◌⊹◌ : String → String → String
a ⊹ b = String.◌++◌ a b

unfoldable pub new_slot : ExportConfig → ExportFormat → String → ExportSlot
new_slot c format id =
    let final_path : String = c.dir ⊹ "/" ⊹ id ⊹ "." ⊹ format_text format in
    record {
      id = id;
      part_path = final_path ⊹ ".part";
      final_path = final_path;
      settings = c;
      released = false;
    }

-- beginExport once the store is known to be enabled.
unfoldable pub begin_with : ExportConfig → ExportFormat → String → ExportStore → Begun
unfolding new_slot ◌+ℤ◌ stored_bytes
begin_with c format id s =
    let slot = new_slot c format id in
    if leb_ℤ (pos c.max_concurrent) s.running
    then refused too_many_running
    else if ltb_ℤ (pos c.dir_max_bytes)
        (pos (stored_bytes s) +ℤ s.reserved_bytes +ℤ pos c.max_bytes)
    then refused directory_full
    else begun
        (record s {
          running = s.running +ℤ pos 1;
          reserved_bytes = s.reserved_bytes +ℤ pos c.max_bytes;
          slots = set id slot s.slots;
        })
        slot

unfoldable pub begin_export : ExportFormat → String → ExportStore → Begun
unfolding begin_with
begin_export format id s = elim s.config [
  | none ↦ refused not_enabled
  | some c ↦ begin_with c format id s
]

-- `slot.complete(details)`. A rename that fails throws before anything is registered.
unfoldable pub complete :
    ExportSlot → Bool → Details → ℕ → ExportStore → ExportStore × Option ExportEntry
complete slot renamed d now s =
    let entry : ExportEntry = record {
      id = slot.id;
      path = slot.final_path;
      filename = d.filename;
      format = d.format;
      owner = d.owner;
      bytes = d.bytes;
      rows = d.rows;
      expires_at = now + slot.settings.ttl_minutes * 60_000;
      downloads = 0;
    } in
    if renamed then (record s { entries = set slot.id entry s.entries }, some entry) else (s, none)

-- The slot with the id, if it is not released yet, is given back.
unfoldable pub release_slot : ExportSlot → ExportStore → ExportStore
unfolding ◌-ℤ◌
release_slot slot s = if slot.released then s else record s {
  slots = set slot.id (record slot { released = true }) s.slots;
  running = s.running -ℤ pos 1;
  reserved_bytes = s.reserved_bytes -ℤ pos slot.settings.max_bytes;
  unlinked = s.unlinked ++ slot.part_path ∷ [];
}

-- `slot.release()`, for the slot that was begun under the id.
unfoldable pub release : String → ExportStore → ExportStore
unfolding release_slot
release id s = elim (get id s.slots) [ none ↦ s | some slot ↦ release_slot slot s ]

-- /^[A-Za-z0-9_-]{43}$/
unfoldable pub is_export_id : String → Bool
is_export_id id =
    length (codes id) == 43
    && all (λ c. is_letter c || is_digit c || c == b'_' || c == b'-') (codes id)

-- A found entry, unless it has expired.
abbrev pub live_entry : ℕ → ExportEntry → Option ExportEntry
live_entry now e = if leb e.expires_at now then none else some e

unfoldable pub peek_export : String → ℕ → ExportStore → Option ExportEntry
unfolding is_export_id
peek_export id now s =
    if not (is_export_id id)
    then none
    else (elim (get id s.entries) [ none ↦ none | some e ↦ live_entry now e ])

-- takeExport for an entry that was found, with the settings.
unfoldable pub take_entry :
    ExportConfig → String → ExportEntry → ExportStore → ExportStore × Option (ExportEntry × Bool)
take_entry c id e s =
    let counted : ExportEntry = record e { downloads = e.downloads + 1 } in
    if leb c.max_downloads counted.downloads
    then (record s { entries = delete id s.entries }, some (counted, true))
    else (record s { entries = set id counted s.entries }, some (counted, false))

abbrev pub take_found :
    String → ExportStore → Option ExportEntry → ExportStore × Option (ExportEntry × Bool)
take_found id s none = (s, none)
take_found id s (some e) = elim s.config [ none ↦ (s, none) | some c ↦ take_entry c id e s ]

-- The entry, and whether the caller must delete the file afterwards.
unfoldable pub take_export : String → ℕ → ExportStore → ExportStore × Option (ExportEntry × Bool)
unfolding peek_export take_entry
take_export id now s = take_found id s (peek_export id now s)

unfoldable pub delete_export_file : ExportEntry → ExportStore → ExportStore
delete_export_file e s = record s { unlinked = s.unlinked ++ e.path ∷ [] }

unfoldable pub sweep_expired : ℕ → ExportStore → ExportStore × ℕ
sweep_expired now s =
    let expired = values (keep (λ (e : ExportEntry). leb e.expires_at now) s.entries) in
    (
      record s {
        entries = delete_all (map (λ (e : ExportEntry). e.id) expired) s.entries;
        unlinked = s.unlinked ++ map (λ (e : ExportEntry). e.path) expired;
      },
      length expired,
    )
