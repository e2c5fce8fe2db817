-- ===== src/Witnesses/Arcs.antt =====
-- Two calls on an instance whose name is removed while they are under way.
use lazyd.Base.{
  ℕ, ◌+◌, ◌≤◌, ◌<◌, ◌≡◌, ◌≢◌, refl, text, text_eq, some, none, false, Option, List, [], ◌∷◌, ◌^◌,
  div_ceil,
}
use lazyd.Errors.{ok}
use lazyd.Disk.{exists, open_create, open_existing, set_len, write_all_at, sync}
use lazyd.RangeMap.{
  bitmap_path, validate_fetch_unit_bytes, slot_count, is_range_ready, slots_for_range,
}
use lazyd.RangeMap.Open.{encode_header, initialize_file, open_or_create}
use lazyd.RangeMap.Update.{IsReady}
use lazyd.Instance.{
  Instance, Range, overlaps, end, admit, amplify_to_fetch_unit, is_busy, reserve_inflight,
}
use lazyd.Instance.Write.{byte_at}
use lazyd.Instance.Fetch.{Serves}
use lazyd.Instance.Tasks.{returned, held, turn, cancel}
use lazyd.Registry.{
  check_config, open_map, recover, new_instance, open_instance, mark_instance, unmark_removed,
}
use lazyd.Daemon.Arcs.{
  Live, system, begun, Move, registers, unregisters, calls, runs, drops, moves, AllOpen, at_address,
  open_arc, register_arc, unregister_arc, call_arc, run_arc, drop_arc,
}
use lazyd.Daemon.Arcs.Safety.{arcs_serve}
use lazyd.Witnesses.{sevens, answers-IsHonest, layer_config, layer_instance, cold_setup}
use lazyd.Witnesses.Reopen.{sparse_disk, tells}

abbrev script : List Move
script =
    registers (text "one") layer_config 0
    ∷ calls (text "one") 0 3 5
    ∷ runs 0 0
    ∷ runs 0 0
    ∷ calls (text "one") 1 (2 ^ 20) 5
    ∷ runs 0 1
    ∷ unregisters (text "one")
    ∷ runs 0 1
    ∷ runs 0 0
    ∷ drops 0 0
    ∷ []

abbrev after_script : Live
after_script = moves cold_setup script (begun sparse_disk)

all_open : AllOpen cold_setup (λ _. sevens) script (begun sparse_disk)
all_open = (
  λ vacant. record { honest = answers-IsHonest; truth = tells; apart = λ b j q. absurd cc },
  (tt, (tt, (tt, (tt, (tt, (tt, (tt, (tt, (tt, tt))))))))),
)

abbrev instance_at : Option Instance → Instance
instance_at (some i) = i
instance_at none = layer_instance

abbrev alive : Instance
alive = instance_at (after_script.arcs 0)

lives : after_script.arcs 0 ≡ some alive
unfolding register_arc open_arc call_arc run_arc drop_arc unregister_arc at_address check_config
    mark_instance unmark_removed open_instance open_map recover new_instance
    validate_fetch_unit_bytes open_existing open_or_create slot_count open_create exists set_len
    write_all_at sync encode_header initialize_file text text_eq bitmap_path turn cancel admit
    is_range_ready slots_for_range div_ceil amplify_to_fetch_unit is_busy reserve_inflight overlaps
    end
lives = refl

arcs_serve_example :
    Serves sevens (system after_script 0 alive).shared
    × ((k offset len : ℕ)
        → after_script.pc 0 k ≡ returned offset len (ok tt)
        → (n : ℕ) → offset ≤ n
        → n < offset + len
        → IsReady alive.range_map n × (byte_at after_script.disk alive.config.target_path n ≡ 7))
    × ((j k : ℕ) (r q : Range)
        → j ≢ k
        → held (after_script.pc 0 j) ≡ some r
        → held (after_script.pc 0 k) ≡ some q
        → overlaps r q ≡ false)
arcs_serve_example = arcs_serve cold_setup (λ _. sevens) script sparse_disk all_open 0 alive lives
