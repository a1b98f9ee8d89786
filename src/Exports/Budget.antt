-- ===== src/Exports/Budget.antt =====
-- src/export/store.ts: the limits on running exports and on the bytes in the directory.
use mcp_server_db2i.Prelude.{
  ℕ, suc, ◌+◌, ◌*◌, ◌≤◌, String, Bool, true, false, Option, none, some, List, [], ◌∷◌, ◌≡◌, refl,
  sym, ap, ◌∙◌, subst, inl, inr, arith, Option-cases, Bool-cases, if◌then◌else◌,
}
use mcp_server_db2i.Prelude.Table.{Table, get, set, Every, set-Every, nil-Every}
use mcp_server_db2i.Prelude.Int.{ℤ, pos, ◌+ℤ◌, ◌-ℤ◌, ltb_ℤ, leb_ℤ}
use mcp_server_db2i.Exports.{
  ExportConfig, ExportFormat, ExportEntry, ExportSlot, Details, ExportStore, Begun, begun, refused,
  not_enabled, stored_bytes, new_slot, begin_with, begin_export, init_export_store, complete,
  release, release_slot, take_export, sweep_expired,
}
use mcp_server_db2i.Exports.Entries.{take_export_entries, complete_entries}

-- How many slots are not released.
unfoldable pub open_slots : Table ExportSlot → ℕ
open_slots [] = 0
open_slots ((_, s) ∷ m) = (if s.released then 0 else 1) + open_slots m

open_slots-set_absent :
    (k : String) (s : ExportSlot) (m : Table ExportSlot)
    → get k m ≡ none
    → open_slots (set k s m) ≡ (if s.released then 0 else 1) + open_slots m
unfolding open_slots set get
open_slots-set_absent k s [] h = refl
open_slots-set_absent k s ((i, w) ∷ m) h = ground (arith, open_slots-set_absent k s m)

open_slots-set_released :
    (k : String) (s : ExportSlot) (m : Table ExportSlot)
    → get k m ≡ some s
    → s.released ≡ false
    → open_slots (set k (record s { released = true }) m) + 1 ≡ open_slots m
unfolding open_slots set get
open_slots-set_released k s [] h o = cc
open_slots-set_released k s ((i, w) ∷ m) h o = ground (arith, open_slots-set_released k s m)

-- The calls that an enabled store receives. An export begins, completes if it succeeded, and is released,
-- as in the `finally` of export_query; any other calls run in between.
pub data Call : Type 0 where
  begins : ExportFormat → String → Call
  completes : String → Bool → Details → ℕ → Call
  releases : String → Call
  takes : String → ℕ → Call
  sweeps : ℕ → Call

abbrev after_begin : ExportStore → Begun → ExportStore
after_begin s (begun s' slot) = s'
after_begin s (refused e) = s

-- `complete` on the slot that was begun under the id.
abbrev complete_at : Bool → Details → ℕ → Option ExportSlot → ExportStore → ExportStore
complete_at renamed d now none s = s
complete_at renamed d now (some slot) s = (complete slot renamed d now s).0

unfoldable pub step : ExportStore → Call → ExportStore
unfolding complete
step s (begins format id) = after_begin s (begin_export format id s)
step s (completes id renamed d now) = complete_at renamed d now (get id s.slots) s
step s (releases id) = release id s
step s (takes id now) = (take_export id now s).0
step s (sweeps now) = (sweep_expired now s).0

unfoldable pub run : ExportStore → List Call → ExportStore
unfolding step
run s [] = s
run s (c ∷ cs) = run (step s c) cs

pub record IsWithin (c : ExportConfig) (s : ExportStore) : Type 0 where
  pub enabled : s.config ≡ some c
  pub slots : Every (λ k (x : ExportSlot). (x.id ≡ k) × (x.settings ≡ c)) s.slots
  pub running : s.running ≡ pos (open_slots s.slots)
  pub reserved : s.reserved_bytes ≡ pos (open_slots s.slots * c.max_bytes)
  pub concurrent : open_slots s.slots ≤ c.max_concurrent

-- A drawn id is new.
abbrev pub IsGood : ExportConfig → ExportStore → Call → Type 0
IsGood c s (begins format id) = get id s.slots ≡ none
IsGood c s _ = Unit

pos-minus : (n k m : ℕ) (z : ℤ) → z ≡ pos n → m + k ≡ n → z -ℤ pos k ≡ pos m
unfolding ◌-ℤ◌
pos-minus n k m z e h = ground arith

pos-plus : (n k m : ℕ) (z : ℤ) → z ≡ pos n → n + k ≡ m → z +ℤ pos k ≡ pos m
unfolding ◌+ℤ◌
pos-plus n k m z e h = ground arith

-- The test for a full directory, when the reserved bytes are not negative.
room_in_directory :
    (stored held max dir : ℕ) (z : ℤ)
    → z ≡ pos held
    → ltb_ℤ (pos dir) (pos stored +ℤ z +ℤ pos max) ≡ false
    → stored + held + max ≤ dir
unfolding ◌+ℤ◌
room_in_directory stored held max dir z e h = ground arith

room_for_one : (n max : ℕ) (z : ℤ) → z ≡ pos n → leb_ℤ (pos max) z ≡ false → suc n ≤ max
room_for_one n max z e h = ground arith

begin_export-begin_with :
    (c : ExportConfig) (format : ExportFormat) (id : String) (s : ExportStore)
    → s.config ≡ some c
    → begin_export format id s ≡ begin_with c format id s
unfolding begin_export
begin_export-begin_with c format id s on =
    ap
      (λ (o : Option ExportConfig). elim o as (λ x. Begun) [
        | none ↦ refused not_enabled
        | some x ↦ begin_with x format id s
      ])
      on

module _ (c : ExportConfig) (s : ExportStore) (v : IsWithin c s) where
  -- A live slot is given back.
  release_slot-IsWithin :
      (slot : ExportSlot)
      → get slot.id s.slots ≡ some slot
      → slot.released ≡ false
      → IsWithin c (release_slot slot s)
  unfolding release_slot
  release_slot-IsWithin slot found live =
      let left = set slot.id (record slot { released = true }) s.slots in
      let one = open_slots-set_released slot.id slot s.slots found live in
      let times = ap (λ (t : ℕ). t * c.max_bytes) one in
      let (name, own) = v.slots slot.id slot found in
      let cap : slot.settings.max_bytes ≡ c.max_bytes = ap (λ x. x.max_bytes) own in
      rw (live, release_slot)
        (record {
          enabled = v.enabled;
          slots = set-Every _ slot.id (record slot { released = true }) s.slots (name, own) v.slots;
          running = pos-minus _ 1 (open_slots left) s.running v.running one;
          reserved =
              pos-minus _ slot.settings.max_bytes (open_slots left * c.max_bytes) s.reserved_bytes
                v.reserved (omega (arith, times, cap));
          concurrent = omega (arith, one, v.concurrent);
        })

  release-IsWithin : (id : String) → IsWithin c (release id s)
  unfolding release release_slot
  release-IsWithin id = elim (Option-cases (get id s.slots)) [
    | inl missing ↦ rw (missing, release) v
    | inr (slot, found) ↦ elim (Bool-cases slot.released) [
      | inl done ↦ rw (found, release, release_slot, done) v
      | inr live ↦
          rw (found, release)
            (release_slot-IsWithin slot
              (subst (λ x. get x s.slots ≡ some slot) (sym (v.slots id slot found).0) found) live)
    ]
  ]

  keep_entries-IsWithin : (es : Table ExportEntry) → IsWithin c (record s { entries = es })
  keep_entries-IsWithin es = record {
    enabled = v.enabled;
    slots = v.slots;
    running = v.running;
    reserved = v.reserved;
    concurrent = v.concurrent;
  }

  take_export-IsWithin : (id : String) (now : ℕ) → IsWithin c (take_export id now s).0
  take_export-IsWithin id now =
      let (es, same, small) = take_export_entries id now s in
      subst (IsWithin c) (sym same) (keep_entries-IsWithin es)

  sweep_expired-IsWithin : (now : ℕ) → IsWithin c (sweep_expired now s).0
  unfolding sweep_expired
  sweep_expired-IsWithin now = record {
    enabled = v.enabled;
    slots = v.slots;
    running = v.running;
    reserved = v.reserved;
    concurrent = v.concurrent;
  }

  begin_with-IsWithin :
      (format : ExportFormat) (id : String)
      → get id s.slots ≡ none
      → IsWithin c (after_begin s (begin_with c format id s))
  unfolding begin_with new_slot
  begin_with-IsWithin format id new = elim (Bool-cases (leb_ℤ (pos c.max_concurrent) s.running)) [
    | inl busy ↦ rw (busy, begin_with) v
    | inr idle ↦
        elim (Bool-cases (
          ltb_ℤ (pos c.dir_max_bytes)
            (pos (stored_bytes s) +ℤ s.reserved_bytes +ℤ pos c.max_bytes))) [
              | inl full ↦ rw (idle, full, begin_with) v
              | inr room ↦
                  let slot = new_slot c format id in
                  let one = open_slots-set_absent id slot s.slots new in
                  let times = ap (λ (t : ℕ). t * c.max_bytes) one in
                  rw (idle, room, begin_with)
                    (record {
                      enabled = v.enabled;
                      slots = set-Every _ id slot s.slots (refl, refl) v.slots;
                      running = pos-plus _ 1 _ s.running v.running (omega (arith, one));
                      reserved =
                          pos-plus _ c.max_bytes _ s.reserved_bytes v.reserved
                            (omega (arith, times));
                      concurrent =
                          omega
                            (arith, one, room_for_one _ c.max_concurrent s.running v.running idle);
                    })
            ]
  ]

  begin_export-IsWithin :
      (format : ExportFormat) (id : String)
      → get id s.slots ≡ none
      → IsWithin c (after_begin s (begin_export format id s))
  unfolding begin_export
  begin_export-IsWithin format id new =
      subst (λ r. IsWithin c (after_begin s r))
        (sym (begin_export-begin_with c format id s v.enabled)) (begin_with-IsWithin format id new)

  complete_at-IsWithin :
      (renamed : Bool) (d : Details) (now : ℕ) (slot : Option ExportSlot)
      → IsWithin c (complete_at renamed d now slot s)
  complete_at-IsWithin renamed d now none = v
  complete_at-IsWithin renamed d now (some slot) =
      let (es, same, grown) = complete_entries slot renamed d now s in
      subst (IsWithin c) (sym same) (keep_entries-IsWithin es)

  step-IsWithin : (x : Call) → IsGood c s x → IsWithin c (step s x)
  unfolding step
  step-IsWithin (begins format id) new = begin_export-IsWithin format id new
  step-IsWithin (completes id renamed d now) _ = complete_at-IsWithin renamed d now (get id s.slots)
  step-IsWithin (releases id) _ = release-IsWithin id
  step-IsWithin (takes id now) _ = take_export-IsWithin id now
  step-IsWithin (sweeps now) _ = sweep_expired-IsWithin now

-- Every call meets its condition when its turn comes.
abbrev pub AllGood : ExportConfig → ExportStore → List Call → Type 0
AllGood c s [] = Unit
AllGood c s (x ∷ xs) = IsGood c s x × AllGood c (step s x) xs

run_from-IsWithin :
    (c : ExportConfig) (s : ExportStore) (xs : List Call)
    → IsWithin c s
    → AllGood c s xs
    → IsWithin c (run s xs)
unfolding run
run_from-IsWithin c s [] v good = v
run_from-IsWithin c s (x ∷ xs) v good =
    run_from-IsWithin c (step s x) xs (step-IsWithin c s v x good.0) good.1

-- A store that has just been enabled.
abbrev pub fresh_store : ExportConfig → ExportStore
fresh_store c = init_export_store c (record {
  config = none;
  sweeping = false;
  entries = [];
  slots = [];
  running = pos 0;
  reserved_bytes = pos 0;
  unlinked = [];
})

pub run-IsWithin :
    (c : ExportConfig) (xs : List Call)
    → AllGood c (fresh_store c) xs
    → IsWithin c (run (fresh_store c) xs)
unfolding init_export_store open_slots
run-IsWithin c xs good =
    run_from-IsWithin c (fresh_store c) xs
      (record {
        enabled = refl;
        slots = nil-Every (λ k (x : ExportSlot). (x.id ≡ k) × (x.settings ≡ c));
        running = refl;
        reserved = ground arith;
        concurrent = omega arith;
      })
      good

admitted :
    (c : ExportConfig) (format : ExportFormat) (id : String) (s s2 : ExportStore)
    (slot : ExportSlot)
    → IsWithin c s
    → get id s.slots ≡ none
    → begin_with c format id s ≡ begun s2 slot
    → stored_bytes s2 + open_slots s2.slots * c.max_bytes ≤ c.dir_max_bytes
unfolding begin_with stored_bytes
admitted c format id s s2 slot v new h =
    elim (Bool-cases (leb_ℤ (pos c.max_concurrent) s.running)) [
      | inl busy ↦ absurd (let e = rw (busy, begin_with) at h in cc)
      | inr idle ↦
          elim (Bool-cases (
            ltb_ℤ (pos c.dir_max_bytes)
              (pos (stored_bytes s) +ℤ s.reserved_bytes +ℤ pos c.max_bytes))) [
                | inl full ↦ absurd (let e = rw (idle, full, begin_with) at h in cc)
                | inr room ↦
                    let one = open_slots-set_absent id (new_slot c format id) s.slots new in
                    let times = ap (λ (t : ℕ). t * c.max_bytes) one in
                    let fits =
                      room_in_directory (stored_bytes s) _ c.max_bytes c.dir_max_bytes
                        s.reserved_bytes v.reserved room in
                    let same = ap (after_begin s) (rw (idle, room, begin_with) at h) in
                    subst
                      (λ (r : ExportStore).
                        stored_bytes r + open_slots r.slots * c.max_bytes ≤ c.dir_max_bytes)
                      same (omega (arith, times, fits))
              ]
    ]

-- Whenever an export is let in under a new id, after any sequence of calls in which ids are new, the bytes
-- of the registered files together with EXPORT_MAX_BYTES for every export that is not released, its own
-- included, fit in EXPORT_DIR_MAX_BYTES at that moment.
pub run-begin_export :
    (c : ExportConfig) (xs : List Call) (format : ExportFormat) (id : String) (s2 : ExportStore)
    (slot : ExportSlot)
    → AllGood c (fresh_store c) xs
    → get id (run (fresh_store c) xs).slots ≡ none
    → begin_export format id (run (fresh_store c) xs) ≡ begun s2 slot
    → stored_bytes s2 + open_slots s2.slots * c.max_bytes ≤ c.dir_max_bytes
run-begin_export c xs format id s2 slot good new h =
    let v = run-IsWithin c xs good in
    admitted c format id (run (fresh_store c) xs) s2 slot v new
      (sym (begin_export-begin_with c format id (run (fresh_store c) xs) v.enabled) ∙ h)
