-- ===== src/RangeMap/Tests.antt =====
-- The theorems on the bitmap at a map of three slots of 1 MiB, of which the first is set.
use lazyd.Base.{
  div_ceil, ℕ, ◌+◌, ◌*◌, ◌/◌, ◌^◌, ◌≤◌, ◌<◌, ◌≡◌, refl, ◌⊎◌, ◌↔◌, true, none, some, [], ◌∷◌, length,
  text, text_eq, arith, if◌then◌else◌, ltb,
}
use lazyd.Errors.{ok, IoError}
use lazyd.Disk.{Disk, success}
use lazyd.RangeMap.{
  RangeMap, MapState, slots_for_range, slot_range, is_range_ready, set_range_ready,
  clear_range_ready,
}
use lazyd.RangeMap.Slots.{IsWellFormed, Touches, slots_for_range_exact, slot_range_lem}
use lazyd.RangeMap.Update.{IsReady, is_range_ready_iff}
use lazyd.RangeMap.Effects.{Ends, set_range_ready_lem, clear_range_ready_lem}
use lazyd.RangeMap.Presence.{
  Lseek, found, failed, SeekLaws, Answers, range_is_present, range_is_present-Answers,
}
use lazyd.RangeMap.Recovery.{recovery_reconcile}
use lazyd.RangeMap.Recovery.Exact.{Recovered, recovery_reconcile_lem}

abbrev small : RangeMap
small = record {
  file = 2 ∷ [];
  unit_bytes = 2 ^ 20;
  blob_size = 3 * 2 ^ 20;
  slot_count = 3;
  slots = 1 ∷ 0 ∷ 0 ∷ [];
}

abbrev quiet_disk : Disk
quiet_disk = record { files = λ _. none; plan = λ _. success; calls = 0 }

abbrev small_state : MapState
small_state = record { map = small; disk = quiet_disk }

small-IsWellFormed : IsWellFormed small
small-IsWellFormed = record {
  unit_pos = omega arith;
  fits = omega arith;
  counted = refl;
  sized = refl;
}

slots_for_range_exact_example :
    (a b : ℕ) × (slots_for_range small 8 (2 ^ 20) ≡ ok (a, b))
    × (a < b)
    × (b ≤ length small.slots)
    × ((slot : ℕ) → ((a ≤ slot) × (slot < b)) ↔ Touches small 8 (8 + 2 ^ 20) slot)
slots_for_range_exact_example =
    slots_for_range_exact small 8 (2 ^ 20) small-IsWellFormed (omega arith) (omega arith)

slots_run : slots_for_range small 8 (2 ^ 20) ≡ ok (0, 2)
unfolding slots_for_range div_ceil
slots_run = refl

slot_range_lem_example :
    (offset len : ℕ) × (slot_range small 2 ≡ ok (offset, len))
    × (0 < len)
    × (offset + len ≤ small.blob_size)
    × ((i : ℕ)
        → i < small.blob_size
        → ((offset ≤ i) × (i < offset + len)) ↔ (i / small.unit_bytes ≡ 2))
slot_range_lem_example = slot_range_lem small 2 small-IsWellFormed (omega arith)

is_range_ready_iff_example :
    (is_range_ready small 8 4096 ≡ true) ↔ ((i : ℕ) → 8 ≤ i → i < 8 + 4096 → IsReady small i)
is_range_ready_iff_example = is_range_ready_iff small 8 4096 small-IsWellFormed (omega arith)

ready_run : is_range_ready small 8 4096 ≡ true
unfolding is_range_ready slots_for_range div_ceil
ready_run = refl

set_range_ready_example : Ends small_state (set_range_ready (2 ^ 20) 1 small_state) (λ m.
    (i : ℕ) → IsReady m i ↔ (IsReady small i ⊎ Touches small (2 ^ 20) (2 ^ 20 + 1) (i / 2 ^ 20)))
set_range_ready_example =
    set_range_ready_lem (2 ^ 20) 1 small_state small-IsWellFormed (omega arith) (omega arith)

clear_range_ready_example :
    Ends small_state
      (clear_range_ready 8 4096 small_state)
      (λ m. (i : ℕ) → IsReady m i ↔ (IsReady small i × ¬ Touches small 8 (8 + 4096) (i / 2 ^ 20)))
clear_range_ready_example =
    clear_range_ready_lem 8 4096 small_state small-IsWellFormed (omega arith) (omega arith)

-- A file with data in its first 2 MiB, whatever the disk says.
abbrev enxio : IoError
enxio = record { raw_os_error = some 6; display = text "No such device or address" }

abbrev half_full : Lseek
half_full = record {
  seek_data = λ d p o. if ltb o (2 ^ 21) then found o else failed enxio;
  seek_hole = λ d p o. if ltb o (2 ^ 21) then found (2 ^ 21) else failed enxio;
}

abbrev FirstHalf : ℕ → Type 0
FirstHalf i = i < 2 ^ 21

half_full-SeekLaws : (d : Disk) → SeekLaws half_full d (1 ∷ []) FirstHalf
half_full-SeekLaws d = record {
  data_here = λ o n h. ground arith;
  data_none = λ o e h z. ground arith;
  hole_here = λ o n h. ground arith;
  hole_none = λ o e h z. ground arith;
}

range_is_present_example :
    Answers half_full quiet_disk
      (1 ∷ [])
      FirstHalf
      (2 ^ 20)
      (2 ^ 20)
      (range_is_present half_full quiet_disk (1 ∷ []) (2 ^ 20) (2 ^ 20))
range_is_present_example =
    range_is_present-Answers half_full quiet_disk (1 ∷ []) (half_full-SeekLaws quiet_disk) (2 ^ 20)
      (2 ^ 20) (omega arith)

recovery_reconcile_example :
    Recovered FirstHalf small_state (recovery_reconcile half_full (1 ∷ []) small_state)
recovery_reconcile_example =
    recovery_reconcile_lem half_full (1 ∷ []) FirstHalf small_state small-IsWellFormed
      (unfold text_eq in refl) (λ d _. half_full-SeekLaws d)
