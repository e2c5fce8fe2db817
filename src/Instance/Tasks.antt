-- ===== src/Instance/Tasks.antt =====
-- Calls of `Instance::ensure_range` that run at once on one `Arc<Instance>`. A call is a task; in
-- one turn it does what the source does up to the next access of something shared: a lock, a
-- request, one `write_at`. The turns of the tasks come in any order.
pub mod Facts
mod Turns
mod Flights
mod Flew
mod Each
pub mod Invariant
pub mod Steps
pub mod Local
pub mod Safety
pub mod Release
pub mod Alone
use lazyd.Base.{
  ℕ, zero, suc, ◌+◌, ◌-◌, ◌≡◌, Bytes, Bool, true, false, Option, none, some, List, [], length, drop,
  replicate, ltb, ◌==◌, if◌then◌else◌,
}
use lazyd.Errors.{Result, Error, ok, err, io}
use lazyd.Disk.{Disk}
use lazyd.RangeMap.{RangeMap, slots_for_range, is_range_ready, fill, header_size}
use lazyd.Remote.{RemoteBackend}
use lazyd.Instance.{
  InstanceState, Range, admit, is_busy, read_range, reserve_inflight, release_inflight, write_zero,
  short_read,
}

-- Where a call of `ensure_range(offset, len)` stands: before it is made, at its beginning, in the
-- loop of `reserve_inflight`, at the second `is_range_ready`, at `read_range`, in the loop of
-- `write_all_at`, in `set_range_ready` before the bitmap file and before the slots in memory are
-- written, at the drop of the guard, and back.
pub data Pc : Type 0 where
  idle : Pc
  called : (offset len : ℕ) → Pc
  waiting holding asking marking : (offset len : ℕ) (range : Range) → Pc
  writing : (offset len : ℕ) (range : Range) (bytes : Bytes) (written : ℕ) → Pc
  filling : (offset len : ℕ) (range : Range) (slot_start slot_end : ℕ) → Pc
  leaving : (offset len : ℕ) (range : Range) (r : Result (Unit {0})) → Pc
  returned : (offset len : ℕ) (r : Result (Unit {0})) → Pc

-- The range that a task has in flight.
abbrev pub held : Pc → Option Range
held idle = none
held (called offset len) = none
held (waiting offset len range) = none
held (holding offset len range) = some range
held (asking offset len range) = some range
held (marking offset len range) = some range
held (writing offset len range bytes written) = some range
held (filling offset len range slot_start slot_end) = some range
held (leaving offset len range r) = some range
held (returned offset len r) = none

abbrev with_disk : InstanceState → Disk → InstanceState
with_disk s d = record s { disk = d }

abbrev pub admitted : ℕ → ℕ → Result (Option Range) → Pc
admitted offset len (err e) = returned offset len (err e)
admitted offset len (ok none) = returned offset len (ok tt)
admitted offset len (ok (some range)) = waiting offset len range

abbrev pub reserve : ℕ → ℕ → Range → InstanceState → Pc × InstanceState
reserve offset len range s =
    if is_busy range s
    then (waiting offset len range, s)
    else (holding offset len range, reserve_inflight range s)

abbrev pub look_again : ℕ → ℕ → Range → InstanceState → Pc
look_again offset len range s =
    if is_range_ready s.inst.range_map offset len
    then leaving offset len range (ok tt)
    else asking offset len range

abbrev pub answered : ℕ → ℕ → Range → Result Bytes → Pc
answered offset len range (err e) = leaving offset len range (err e)
answered offset len range (ok bytes) =
    if length bytes == range.len
    then writing offset len range bytes 0
    else leaving offset len range (err (short_read (length bytes) range.len))

abbrev pub wrote : ℕ → ℕ → Range → Bytes → ℕ → Result ℕ → Pc
wrote offset len range bytes written (err e) = leaving offset len range (err e)
wrote offset len range bytes written (ok zero) = leaving offset len range (err (io write_zero))
wrote offset len range bytes written (ok (suc n)) = writing offset len range bytes (written + suc n)

unfoldable pub write_more : ℕ → ℕ → Range → Bytes → ℕ → InstanceState → Pc × InstanceState
write_more offset len range bytes written s =
    let (r, d) =
      lazyd.Disk.write_at s.inst.config.target_path (drop written bytes) (range.offset + written)
        s.disk in
    if ltb written (length bytes)
    then (wrote offset len range bytes written r, with_disk s d)
    else (marking offset len range, s)

abbrev pub marked : ℕ → ℕ → Range → ℕ → ℕ → Result (Unit {0}) → Pc
marked offset len range slot_start slot_end (err e) = leaving offset len range (err e)
marked offset len range slot_start slot_end (ok _) = filling offset len range slot_start slot_end

-- `update_range` up to its write of the bitmap file
unfoldable pub mark_slots : ℕ → ℕ → Range → InstanceState → Pc × InstanceState
mark_slots offset len range s = elim (slots_for_range s.inst.range_map range.offset range.len) [
  | err e ↦ (leaving offset len range (err e), s)
  | ok (slot_start, slot_end) ↦
      let (r, d) =
        lazyd.Disk.write_all_at s.inst.range_map.file (replicate (slot_end - slot_start) 1)
          (header_size + slot_start) s.disk in
      if slot_start == slot_end
      then (leaving offset len range (ok tt), s)
      else (marked offset len range slot_start slot_end r, with_disk s d)
]

-- `update_range` behind its write of the bitmap file
abbrev pub fill_slots : ℕ → ℕ → InstanceState → InstanceState
fill_slots slot_start slot_end s = record s {
  inst = record s.inst {
    range_map = record s.inst.range_map {
      slots = fill slot_start slot_end 1 s.inst.range_map.slots;
    };
  };
}

-- One turn of a task; a task that has a range to wait for stays in its loop.
unfoldable pub turn : RemoteBackend → Pc → InstanceState → Pc × InstanceState
turn backend idle s = (idle, s)
turn backend (called offset len) s = (admitted offset len (admit s.inst offset len), s)
turn backend (waiting offset len range) s = reserve offset len range s
turn backend (holding offset len range) s = (look_again offset len range s, s)
turn backend (asking offset len range) s =
    let (r, t) = read_range backend range s in (answered offset len range r, t)
turn backend (writing offset len range bytes written) s =
    write_more offset len range bytes written s
turn backend (marking offset len range) s = mark_slots offset len range s
turn backend (filling offset len range slot_start slot_end) s =
    (leaving offset len range (ok tt), fill_slots slot_start slot_end s)
turn backend (leaving offset len range r) s = (returned offset len r, release_inflight range s)
turn backend (returned offset len r) s = (returned offset len r, s)

-- The future of a call is dropped at one of its `await`s; with it goes its guard, if it has one.
unfoldable pub cancel : Pc → InstanceState → Pc × InstanceState
cancel (waiting offset len range) s = (idle, s)
cancel (asking offset len range) s = (idle, release_inflight range s)
cancel pc s = (pc, s)

-- A task that may make a call
abbrev pub is_resting : Pc → Bool
is_resting idle = true
is_resting (returned _ _ _) = true
is_resting _ = false

pub record System : Type 0 where
  pub shared : InstanceState
  pub pc : ℕ → Pc

abbrev pub put : (ℕ → Pc) → ℕ → Pc → ℕ → Pc
put pcs i pc j = if i == j then pc else pcs j

abbrev pub moved : System → ℕ → Pc × InstanceState → System
moved s i (pc, t) = record { shared = t; pc = put s.pc i pc }

pub data Step (backend : RemoteBackend) (s : System) : System → Type 0 where
  call :
      (i offset len : ℕ)
      → is_resting (s.pc i) ≡ true
      → Step backend s (moved s i (called offset len, s.shared))
  run : (i : ℕ) → Step backend s (moved s i (turn backend (s.pc i) s.shared))
  dropped : (i : ℕ) → Step backend s (moved s i (cancel (s.pc i) s.shared))
  -- The rest of the daemon: requests for other blobs, and calls of the disk on other files.
  elsewhere :
      (d : Disk) (calls : List (ℕ × ℕ))
      → d.files s.shared.inst.config.target_path
        ≡ s.shared.disk.files s.shared.inst.config.target_path
      → d.files s.shared.inst.range_map.file ≡ s.shared.disk.files s.shared.inst.range_map.file
      → Step backend s (record s { shared = record s.shared { disk = d; calls = calls } })

-- The states that calls on a fresh instance lead to.
pub data Reach (backend : RemoteBackend) (s : InstanceState) : System → Type 0 where
  start : Reach backend s (record { shared = s; pc = λ _. idle })
  later : {t u : System} → Reach backend s t → Step backend t u → Reach backend s u
