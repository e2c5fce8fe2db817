-- ===== src/Witnesses/Reopen.antt =====
-- A restart over an empty cache file, and a bitmap file whose initialisation was cut off.
use lazyd.Base.{
  div_ceil, ℕ, ◌+◌, ◌/◌, ◌<◌, ◌^◌, ◌≡◌, refl, ap, text, text_eq, none, some, List, [], ◌∷◌,
  tabulate, arith, if◌then◌else◌, ◌==◌, lookup,
}
use lazyd.Errors.{Result, IoError, io, ok, err, conflict, not_found}
use lazyd.Disk.{
  Disk, success, failure, contents, empty_file, exists, open_create, open_existing, set_len,
  write_all_at, sync,
}
use lazyd.RangeMap.{
  bitmap_path, validate_fetch_unit_bytes, slot_count, is_range_ready, slots_for_range,
}
use lazyd.RangeMap.Slots.{IsWellFormed}
use lazyd.RangeMap.Open.{encode_header, decode_header, position, initialize_file, open_or_create}
use lazyd.RangeMap.Open.Fresh.{byte_in}
use lazyd.RangeMap.Open.Stale.{initialize_file_stale}
use lazyd.Instance.{
  InstanceConfig, fanotify, Instance, InstanceState, admit, amplify_to_fetch_unit, is_busy,
  reserve_inflight, overlaps, end,
}
use lazyd.Instance.Write.{byte_at}
use lazyd.Instance.Fetch.{Serves}
use lazyd.Instance.Tasks.{System, Reach, start, later, call, run, turn, moved, called, idle}
use lazyd.Registry.{
  open_instance, open_map, recover, new_instance, World, register, unregister, ensure, get,
}
use lazyd.Registry.{register_checked, check_config, config_eq, unmark_removed}
use lazyd.Registry.Reopen.{TellsTruth}
use lazyd.Registry.Reopen.Whole.{open_instance-Serves}
use lazyd.Registry.Reopen.Crash.{crash_restart}
use lazyd.Registry.Names.{Op, registers, unregisters, ensures, names, Ran, Permitted, stop, next}
use lazyd.Registry.Names.Refines.{registry_refines}
use lazyd.Witnesses.Headers.{
  toy_json, toy_json-CodecLaws, one_header, header_bytes, one_header_runs,
}
use lazyd.Witnesses.{
  sevens, answers, answers-IsHonest, zeros, layer, layer_map, layer_config, layer_instance,
  cold_setup, cold_world,
}

-- An empty cache file, and no bitmap.
abbrev pub sparse_disk : Disk
sparse_disk = record {
  files = λ p. if text_eq layer p then some empty_file else none;
  plan = λ n. success;
  calls = 0;
}

opens :
    (open_instance cold_setup layer_config sparse_disk).0
    ≡ ok (record layer_instance { range_map = record layer_map { file = bitmap_path layer } })
unfolding open_instance open_map recover new_instance validate_fetch_unit_bytes open_existing
    open_or_create slot_count open_create exists set_len write_all_at sync encode_header
    initialize_file text text_eq bitmap_path
opens = refl

pub tells : TellsTruth cold_setup.json sevens layer_config sparse_disk.files
unfolding decode_header position text text_eq bitmap_path
tells count h reads fits i lt set = cc

abbrev reopened : Instance
reopened = record layer_instance { range_map = record layer_map { file = bitmap_path layer } }

abbrev reopened_disk : Disk
reopened_disk = (open_instance cold_setup layer_config sparse_disk).1

abbrev reopened_state : InstanceState
reopened_state = record { inst = reopened; disk = reopened_disk; calls = [] }

open_instance_example :
    Serves sevens reopened_state × (reopened.inflight ≡ []) × (reopened.config ≡ layer_config)
open_instance_example =
    open_instance-Serves cold_setup sevens layer_config sparse_disk reopened_disk reopened [] tells
      (ap (λ r. (r, reopened_disk)) opens)

-- The daemon before it dies: one call has a range in flight.
abbrev before_crash : InstanceState
before_crash = record { inst = reopened; disk = sparse_disk; calls = [] }

no_bitmap : sparse_disk.files (bitmap_path layer) ≡ none
unfolding text text_eq bitmap_path
no_bitmap = refl

no_slot : (k : ℕ) → ◌≡◌ {A = ℕ} (byte_at sparse_disk (bitmap_path layer) k) 0
unfolding byte_at
no_slot k = rw no_bitmap (ground arith)

before_crash-Serves : Serves sevens before_crash
unfolding bitmap_path
before_crash-Serves = record {
  consistent = record { map = reopened_map-IsWellFormed; unit = refl; size = refl };
  backed = record {
    map = reopened_map-IsWellFormed;
    apart = (unfold text in unfold text_eq in refl, unfold text in unfold text_eq in refl);
    memory = λ i lt h. absurd (let z = zeros 2 (i / 2 ^ 20) 0 in ground arith);
    stored = λ i lt h. absurd (let z = no_slot (4096 + i / 2 ^ 20) in ground arith);
  };
}
  where
    reopened_map-IsWellFormed : IsWellFormed reopened.range_map
    reopened_map-IsWellFormed = record {
      unit_pos = omega arith;
      fits = omega arith;
      counted = refl;
      sized = refl;
    }

abbrev asked_for : System
asked_for = moved (record { shared = before_crash; pc = λ _. idle }) 0 (called 3 5, before_crash)

abbrev in_flight : System
in_flight =
    let waits = moved asked_for 0 (turn answers (asked_for.pc 0) asked_for.shared) in
    moved waits 0 (turn answers (waits.pc 0) waits.shared)

in_flight-Reach : Reach answers before_crash in_flight
in_flight-Reach = later (later (later start (call 0 3 5 refl)) (run 0)) (run 0)

-- The disk is as it was when the daemon died.
abbrev left_disk : Disk
left_disk = record sparse_disk { files = in_flight.shared.disk.files }

left_disk-same : left_disk ≡ sparse_disk
unfolding turn admit is_range_ready slots_for_range div_ceil amplify_to_fetch_unit is_busy
    reserve_inflight overlaps end
left_disk-same = refl

opens_left : (open_instance cold_setup layer_config left_disk).0 ≡ ok reopened
opens_left = rw left_disk-same opens

crash_restart_example :
    Serves sevens (record {
      inst = reopened;
      disk = (open_instance cold_setup layer_config left_disk).1;
      calls = [];
    })
    × (reopened.inflight ≡ [])
    × (reopened.config ≡ layer_config)
crash_restart_example =
    crash_restart cold_setup sevens answers answers-IsHonest before_crash before_crash-Serves refl
      refl in_flight in_flight-Reach left_disk (open_instance cold_setup layer_config left_disk).1
      refl reopened (ap (λ r. (r, (open_instance cold_setup layer_config left_disk).1)) opens_left)
      []

-- A header of one slot over a file whose slot is set; the third call of the disk fails.
abbrev full : IoError
full = record { raw_os_error = some 28; display = text "No space left on device" }

abbrev old_disk : Disk
old_disk = record {
  files = λ p. some (record { len = 4097; byte = λ i. 1 });
  plan = λ n. if n == 2 then failure 0 full else success;
  calls = 0;
}

cut_off_example :
    ((initialize_file toy_json layer one_header old_disk).0 ≡ err (io full))
    × (decode_header toy_json (
          tabulate 4096 0
            (contents ((initialize_file toy_json layer one_header old_disk).1.files layer)).byte)
        ≡ ok one_header)
    × ((k : ℕ)
        → k < 1
        → byte_in (initialize_file toy_json layer one_header old_disk).1.files layer (4096 + k)
          ≡ byte_in old_disk.files layer (4096 + k))
cut_off_example =
    initialize_file_stale toy_json layer one_header header_bytes old_disk full one_header_runs
      (omega arith) refl refl refl toy_json-CodecLaws

-- The registry: a name that is missing, one that is there, a second configuration for it, and its
-- removal.
abbrev other_config : InstanceConfig
other_config = record layer_config { trigger_mode = fanotify }

abbrev gone : World
gone = (unregister cold_setup (text "one") cold_world).1

abbrev trace : List (Op × Result (Unit {0}))
trace =
    (ensures (text "two") 0 5, err (not_found (text "instance not found")))
    ∷ (registers (text "one") layer_config, ok tt)
    ∷ (
      registers (text "one") other_config,
      err (conflict (text "instance already exists with different config")),
    )
    ∷ (unregisters (text "one"), ok tt)
    ∷ []

ran : Ran cold_setup cold_world trace gone
unfolding ensure get lookup text_eq text register register_checked check_config config_eq
    validate_fetch_unit_bytes unregister unmark_removed
ran = next (ensures (text "two") 0 5) refl (
    next (registers (text "one") layer_config) refl
      (next (registers (text "one") other_config) refl (next (unregisters (text "one")) refl stop)))

registry_refines_example : Permitted cold_setup (names cold_world) trace (names gone)
registry_refines_example = registry_refines cold_setup cold_world gone trace ran
