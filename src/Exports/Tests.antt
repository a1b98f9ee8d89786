-- ===== src/Exports/Tests.antt =====
-- src/export/store.ts: the theorems at concrete inputs.
use mcp_server_db2i.Prelude.{
  ◌+◌, ◌-◌, ◌*◌, ◌≤◌, min, String, true, some, List, [], ◌∷◌, ◌≡◌, refl, leb, if◌then◌else◌, arith,
}
use mcp_server_db2i.Prelude.Table.{get, set, IsDistinct}
use mcp_server_db2i.Prelude.Int.{pos, ◌+ℤ◌}
use mcp_server_db2i.Exports.{
  ExportConfig, ExportEntry, ExportStore, Details, csv, is_export_id, begin_export, stored_bytes,
  init_export_store, new_slot, release,
}
use mcp_server_db2i.Exports.Downloads.{Request, asked, served, deleted, served_exactly}
use mcp_server_db2i.Exports.Budget.{
  Call, begins, completes, releases, step, run, fresh_store, AllGood, open_slots, run-begin_export,
}

abbrev settings : ExportConfig
settings = record {
  dir = "/exports";
  max_bytes = 100;
  ttl_minutes = 10;
  max_downloads = 2;
  max_concurrent = 2;
  dir_max_bytes = 250;
}

abbrev first_id : String
first_id = "aaaaaaaaaaaaaaaaaaaaaaaaaaaaaaaaaaaaaaaaaaa"

abbrev entry : ExportEntry
entry = record {
  id = first_id;
  path = "/exports/a.csv";
  filename = "orders.csv";
  format = csv;
  owner = "bob";
  bytes = 90;
  rows = 3;
  expires_at = 1000;
  downloads = 0;
}

abbrev store : ExportStore
store = record {
  config = some settings;
  sweeping = true;
  entries = (first_id, entry) ∷ [];
  slots = [];
  running = pos 0;
  reserved_bytes = pos 0;
  unlinked = [];
}

abbrev requests : List Request
requests = (first_id, 10) ∷ (first_id, 20) ∷ (first_id, 30) ∷ []

first_id-valid : is_export_id first_id ≡ true
unfolding is_export_id
first_id-valid = refl

first_id-there : get first_id store.entries ≡ some entry
unfolding get
first_id-there = refl

served_exactly_example :
    (served first_id store requests ≡ min (asked first_id requests) (settings.max_downloads - 0))
    × (deleted first_id store requests
        ≡ (if leb (settings.max_downloads - 0) (asked first_id requests) then 1 else 0))
served_exactly_example =
    served_exactly first_id requests store settings entry first_id-valid refl first_id-there
      (omega arith) ((λ h. omega arith), ((λ h. omega arith), ((λ h. omega arith), tt)))

store-IsDistinct : IsDistinct store.entries
unfolding IsDistinct get
store-IsDistinct = (refl, tt)

-- A file that is larger than EXPORT_MAX_BYTES by its last batch.
abbrev details : Details
details = record { filename = "orders.csv"; format = csv; owner = "bob"; bytes = 120; rows = 2 }

abbrev calls : List Call
calls =
    begins csv "a"
    ∷ begins csv "b"
    ∷ completes "a" true details 5
    ∷ releases "b"
    ∷ releases "a"
    ∷ []

calls-AllGood : AllGood settings (fresh_store settings) calls
unfolding get set begin_export step stored_bytes init_export_store
calls-AllGood = (refl, (refl, (tt, (tt, (tt, tt)))))

abbrev after : ExportStore
after = run (fresh_store settings) calls

abbrev third : ExportStore
third = record after {
  running = after.running +ℤ pos 1;
  reserved_bytes = after.reserved_bytes +ℤ pos 100;
  slots = set "c" (new_slot settings csv "c") after.slots;
}

run-begin_export_example : stored_bytes third + open_slots third.slots * 100 ≤ 250
unfolding get set begin_export run step stored_bytes init_export_store release
run-begin_export_example =
    run-begin_export settings calls csv "c" third (new_slot settings csv "c") calls-AllGood refl
      refl
