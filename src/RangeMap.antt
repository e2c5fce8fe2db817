-- ===== src/RangeMap.antt =====
-- src/range_map.rs: the bitmap that says which fetch units of a blob are in the cache file. It is
-- kept in memory, a byte for a slot, and in `<target>.bitmap`, behind a header of 4096 bytes.
-- This file has the arithmetic of slots and the operations of an open map; `Open` has the file's
-- header and `open_or_create`.
pub mod Open
pub mod Slots
pub mod Fill
pub mod Update
pub mod Effects
pub mod Only
pub mod Presence
pub mod Recovery
mod Tests
use lazyd.Base.{
  ℕ, zero, suc, ◌+◌, ◌-◌, ◌*◌, ◌/◌, ◌%◌, ◌^◌, Text, text, Bool, true, false, ◌&&◌, ◌||◌, not,
  Option, none, some, List, [], ◌∷◌, ◌++◌, length, take, drop, replicate, all, ltb, leb, ◌==◌,
  if◌then◌else◌, div_ceil, checked_add, checked_mul, wrapping_add, min,
}
use lazyd.Errors
use lazyd.Errors.{Error, IoError, bad_request, io, Result, ok, err, reject_if, ok_or}
use lazyd.Exec.{Exec, pure, lift, gets, modify, zoom, when, ◌>>=◌, ◌>>◌}
use lazyd.Disk.{Disk, write_all_at}

abbrev pub header_size : ℕ
header_size = 4096

abbrev pub bitmap_unit_bytes : ℕ
bitmap_unit_bytes = 2 ^ 20

-- `remote::BlobDescriptor`
pub record BlobDescriptor : Type 0 where
  pub digest : Text
  pub size : ℕ
  pub media_type : Option Text

-- `file` is the path that the handle was opened at.
pub record RangeMap : Type 0 where
  pub file : Text
  pub unit_bytes : ℕ
  pub blob_size : ℕ
  pub slot_count : ℕ
  pub slots : List ℕ

pub record OpenedRangeMap : Type 0 where
  pub range_map : RangeMap
  pub needs_recovery : Bool

-- An open map, whose slots change, and the disk that it writes to.
pub record MapState : Type 0 where
  pub map : RangeMap
  pub disk : Disk

abbrev pub on_disk : {A : Type 0} → Exec Disk A → Exec MapState A
on_disk = zoom (λ s. s.disk) (λ s d. record s { disk = d })

unfoldable pub bitmap_path : Text → Text
bitmap_path target_path = target_path ++ text ".bitmap"

unfoldable pub validate_fetch_unit_bytes : ℕ → Result (Unit {0})
validate_fetch_unit_bytes unit_bytes =
    reject_if (ltb unit_bytes bitmap_unit_bytes || not (unit_bytes % bitmap_unit_bytes == 0))
      (bad_request (text "fetch unit_bytes must be a multiple of 1MiB and no smaller than 1MiB"))

unfoldable pub slot_count : ℕ → ℕ → Result ℕ
slot_count blob_size unit_bytes = elim (checked_add blob_size (unit_bytes - 1)) [
  | none ↦ err (bad_request (text "slot count overflows u64"))
  | some size ↦ ok (size / unit_bytes)
]

-- The part of `slots_for_range` behind the computation of `end`.
slots_up_to : RangeMap → ℕ → ℕ → Result (ℕ × ℕ)
slots_up_to m start end =
    let slot_start = start / m.unit_bytes in
    let slot_end = div_ceil end m.unit_bytes in
    if ltb m.blob_size end
    then err (bad_request (text "range exceeds blob size"))
    else if ltb m.slot_count slot_end
    then err (bad_request (text "range exceeds slot map"))
    else ok (slot_start, slot_end)

unfoldable pub slots_for_range : RangeMap → ℕ → ℕ → Result (ℕ × ℕ)
unfolding slots_up_to
slots_for_range m start len = if len == 0 then ok (0, 0) else elim (checked_add start len) [
  | none ↦ err (bad_request (text "range overflows u64"))
  | some end ↦ slots_up_to m start end
]

unfoldable pub slot_range : RangeMap → ℕ → Result (ℕ × ℕ)
slot_range m slot =
    if leb m.slot_count slot
    then err (bad_request (text "slot exceeds range map"))
    else elim (checked_mul slot m.unit_bytes) [
      | none ↦ err (bad_request (text "slot offset overflows u64"))
      | some offset ↦
          let end = min (wrapping_add offset m.unit_bytes) m.blob_size in ok (offset, end - offset)
    ]

-- `slots[a..b]`
abbrev pub slice : ℕ → ℕ → List ℕ → List ℕ
slice a b slots = take (b - a) (drop a slots)

-- `slots[a..b].fill(value)`
abbrev pub fill : ℕ → ℕ → ℕ → List ℕ → List ℕ
fill a b value slots = take a slots ++ replicate (b - a) value ++ drop b slots

abbrev pub is_set : ℕ → Bool
is_set slot = not (slot == 0)

unfoldable pub is_range_ready : RangeMap → ℕ → ℕ → Bool
is_range_ready m start len = elim (slots_for_range m start len) [
  | err _ ↦ false
  | ok (slot_start, slot_end) ↦ all is_set (slice slot_start slot_end m.slots)
]

-- The write of `update_range` to the file and then to the slots in memory.
unfoldable pub write_slots : ℕ → ℕ → ℕ → Exec MapState Unit
write_slots slot_start slot_end value s =
    (do
      on_disk (
          write_all_at s.map.file (replicate (slot_end - slot_start) value)
            (header_size + slot_start))
      modify λ t. record t {
        map = record t.map { slots = fill slot_start slot_end value t.map.slots };
      })
      s

unfoldable pub update_range : ℕ → ℕ → ℕ → Exec MapState Unit
unfolding write_slots
update_range start len value = do
  m ← gets (λ s. s.map)
  (slot_start, slot_end) ← lift (slots_for_range m start len)
  if slot_start == slot_end then pure tt else write_slots slot_start slot_end value

unfoldable pub set_range_ready : ℕ → ℕ → Exec MapState Unit
set_range_ready start len = update_range start len 1

unfoldable pub clear_range_ready : ℕ → ℕ → Exec MapState Unit
clear_range_ready start len = update_range start len 0
