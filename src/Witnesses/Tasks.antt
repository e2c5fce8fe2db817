-- ===== src/Witnesses/Tasks.antt =====
-- Two calls of `ensure_range` on one small instance: a blob of ten bytes in units of four.
use lazyd.Base.{
  ℕ, ◌+◌, ◌≤◌, ◌<◌, ◌/◌, ◌≡◌, ◌≢◌, refl, ◌⊎◌, text, text_eq, true, false, none, some, List, [], ◌∷◌,
  replicate, arith, div_ceil, retain,
}
use lazyd.Errors.{ok}
use lazyd.Disk.{write_at, write_all_at, splice}
use lazyd.RangeMap.{RangeMap, is_range_ready, slots_for_range}
use lazyd.RangeMap.Slots.{IsWellFormed}
use lazyd.RangeMap.Update.{IsReady}
use lazyd.Instance.{
  InstanceState, Range, overlaps, is_busy, admit, amplify_to_fetch_unit, reserve_inflight,
  release_inflight, read_range, end, range_eq,
}
use lazyd.Instance.Write.{byte_at}
use lazyd.Instance.Fetch.{Serves}
use lazyd.Instance.Tasks.{
  idle, called, waiting, holding, returned, held, turn, write_more, mark_slots, System, moved, run,
  call, Reach, start, later,
}
use lazyd.Instance.Tasks.Safety.{tasks_serve, tasks_apart, tasks_progress}
use lazyd.Instance.Tasks.Release.{own_turns, IsBack, GivesBack, own_turns_lem}
use lazyd.Witnesses.{sevens, answers, answers-IsHonest, zeros, empty_disk, layer_config, layer}

abbrev small_map : RangeMap
small_map = record {
  file = text "/c/layer.erofs.bitmap";
  unit_bytes = 4;
  blob_size = 10;
  slot_count = 3;
  slots = replicate 3 0;
}

abbrev small : InstanceState
small = record {
  inst = record {
    config = record layer_config {
      blob = record { digest = text "sha256:a"; size = 10; media_type = none };
      fetch = record { unit_bytes = 4 };
    };
    range_map = small_map;
    trusted = true;
    inflight = [];
  };
  disk = empty_disk;
  calls = [];
}

small_map-IsWellFormed : IsWellFormed small_map
small_map-IsWellFormed = record {
  unit_pos = omega arith;
  fits = omega arith;
  counted = refl;
  sized = refl;
}

small-Serves : Serves sevens small
unfolding byte_at
small-Serves = record {
  consistent = record { map = small_map-IsWellFormed; unit = refl; size = refl };
  backed = record {
    map = small_map-IsWellFormed;
    apart = (unfold text in unfold text_eq in refl, unfold text in unfold text_eq in refl);
    memory = λ i lt h. absurd (let z = zeros 3 (i / 4) 0 in ground arith);
    stored = λ i lt h. absurd (ground arith);
  };
}

-- The turns of the tasks in the order of a list.
abbrev turns : List ℕ → System → System
turns [] u = u
turns (i ∷ is) u = turns is (moved u i (turn answers (u.pc i) u.shared))

turns-Reach : (is : List ℕ) (u : System) → Reach answers small u → Reach answers small (turns is u)
turns-Reach [] u r = r
turns-Reach (i ∷ is) u r = turns-Reach is _ (later r (run i))

abbrev fresh : System
fresh = record { shared = small; pc = λ _. idle }

-- The second call wants a unit that the first call has in flight.
abbrev both_called : System
both_called = moved (moved fresh 0 (called 1 5, small)) 1 (called 6 3, small)

both_called-Reach : Reach answers small both_called
both_called-Reach = later (later start (call 0 1 5 refl)) (call 1 6 3 refl)

abbrev contended : System
contended = turns (0 ∷ 1 ∷ 0 ∷ 1 ∷ []) both_called

-- The first call is back, the second one waits still.
abbrev first_back_order : List ℕ
first_back_order = 0 ∷ 1 ∷ 0 ∷ 1 ∷ 0 ∷ 0 ∷ 0 ∷ 0 ∷ 0 ∷ 0 ∷ 0 ∷ 0 ∷ 0 ∷ []

abbrev first_back : System
first_back = turns first_back_order both_called

tasks_serve_example :
    Serves sevens first_back.shared
    × (first_back.shared.inst.config ≡ small.inst.config)
    × ((k : ℕ) → IsReady small_map k → IsReady first_back.shared.inst.range_map k)
    × ((i offset len : ℕ)
        → first_back.pc i ≡ returned offset len (ok tt)
        → (k : ℕ) → offset ≤ k
        → k < offset + len
        → IsReady first_back.shared.inst.range_map k × (byte_at first_back.shared.disk layer k ≡ 7))
tasks_serve_example =
    tasks_serve sevens answers answers-IsHonest small small-Serves refl first_back
      (turns-Reach first_back_order both_called both_called-Reach)

-- The first call is back in that state.
first_back-returned : first_back.pc 0 ≡ returned 1 5 (ok tt)
unfolding turn admit is_range_ready slots_for_range div_ceil amplify_to_fetch_unit is_busy
    reserve_inflight release_inflight read_range write_more mark_slots overlaps end range_eq retain
    write_at write_all_at splice text text_eq
first_back-returned = refl

contended-waits : contended.pc 1 ≡ waiting 6 3 (record { offset = 4; len = 6 })
unfolding turn admit is_range_ready slots_for_range div_ceil amplify_to_fetch_unit is_busy
    reserve_inflight overlaps end
contended-waits = refl

tasks_progress_example :
    (is_busy (record { offset = 4; len = 6 }) contended.shared ≡ false)
    ⊎ ((j : ℕ) × (r : Range) × (1 ≢ j)
        × (held (contended.pc j) ≡ some r)
        × (overlaps r (record { offset = 4; len = 6 }) ≡ true))
tasks_progress_example =
    tasks_progress sevens answers answers-IsHonest small small-Serves refl contended
      (turns-Reach (0 ∷ 1 ∷ 0 ∷ 1 ∷ []) both_called both_called-Reach) 1 6 3
      (record { offset = 4; len = 6 }) contended-waits

-- Two calls that have different units in flight.
abbrev both_start : System
both_start = moved (moved fresh 0 (called 1 2, small)) 1 (called 5 2, small)

both_start-Reach : Reach answers small both_start
both_start-Reach = later (later start (call 0 1 2 refl)) (call 1 5 2 refl)

abbrev both_hold : System
both_hold = turns (0 ∷ 1 ∷ 0 ∷ 1 ∷ []) both_start

first_holds : held (both_hold.pc 0) ≡ some (record { offset = 0; len = 4 })
unfolding turn admit is_range_ready slots_for_range div_ceil amplify_to_fetch_unit is_busy
    reserve_inflight overlaps end
first_holds = refl

second_holds : held (both_hold.pc 1) ≡ some (record { offset = 4; len = 4 })
unfolding turn admit is_range_ready slots_for_range div_ceil amplify_to_fetch_unit is_busy
    reserve_inflight overlaps end
second_holds = refl

zero_not_one : ◌≢◌ {A = ℕ} 0 1
zero_not_one e = omega arith

tasks_apart_example : ¬ (◌≤◌ 4 2 × (2 < 4 + 4))
tasks_apart_example =
    tasks_apart sevens answers answers-IsHonest small small-Serves refl both_hold
      (turns-Reach (0 ∷ 1 ∷ 0 ∷ 1 ∷ []) both_start both_start-Reach) 0 1
      (record { offset = 0; len = 4 }) (record { offset = 4; len = 4 }) zero_not_one first_holds
      second_holds 2 (omega arith) (omega arith)

own_turns_lem_example :
    GivesBack answers
      (λ _. small)
      (holding 1 5 (record { offset = 0; len = 8 }))
      (record { offset = 0; len = 8 })
      14
    × IsBack (own_turns answers (λ _. small) 14 (holding 1 5 (record { offset = 0; len = 8 })))
own_turns_lem_example =
    own_turns_lem answers (λ _. small) (holding 1 5 (record { offset = 0; len = 8 }))
      (record { offset = 0; len = 8 }) refl
