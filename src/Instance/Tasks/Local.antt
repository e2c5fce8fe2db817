-- ===== src/Instance/Tasks/Local.antt =====
-- A turn of a call, and the drop of its future, write no file but the cache file and the bitmap.
use lazyd.Base.{ℕ, refl, inl, inr, Bytes, length, ltb, ◌==◌, Bool-cases, drop, replicate, ◌+◌, ◌-◌}
use lazyd.Exec.{Result-cases}
use lazyd.Disk.Laws.Leaves.{write_at-Leaves, write_all_at-Leaves}
use lazyd.RangeMap.{slots_for_range, header_size}
use lazyd.Remote.{RemoteBackend}
use lazyd.Instance.{InstanceState, Range, is_busy, read_range, reserve_inflight, release_inflight}
use lazyd.Instance.Fixed.{Local, Local-refl}
use lazyd.Instance.Tasks.{
  Pc, idle, called, waiting, holding, asking, marking, writing, filling, leaving, returned, reserve,
  write_more, mark_slots, turn, cancel,
}

module _ (s : InstanceState) (offset len : ℕ) (range : Range) where
  reserve-Local : Local s (reserve offset len range s).1
  unfolding reserve_inflight
  reserve-Local = elim (Bool-cases (is_busy range s)) [
    | inl h ↦ rw h (Local-refl s)
    | inr h ↦ rw h (record { config = refl; file = refl; others = λ q a b. refl })
  ]

  write_more-Local :
      (bytes : Bytes) (written : ℕ) → Local s (write_more offset len range bytes written s).1
  unfolding write_more
  write_more-Local bytes written = elim (Bool-cases (ltb written (length bytes))) [
    | inr h ↦ rw h (Local-refl s)
    | inl h ↦ rw h (record {
      config = refl;
      file = refl;
      others = λ q a b.
          write_at-Leaves s.inst.config.target_path (drop written bytes) (range.offset + written)
            s.disk q a;
    })
  ]

  mark_slots-Local : Local s (mark_slots offset len range s).1
  unfolding mark_slots
  mark_slots-Local = elim (Result-cases (slots_for_range s.inst.range_map range.offset range.len)) [
    | inr (e, q) ↦ rw (q, mark_slots) (Local-refl s)
    | inl ((a, b), q) ↦
        rw (q, mark_slots)
          (elim (Bool-cases (a == b)) [
            | inl h ↦ rw h (Local-refl s)
            | inr h ↦ rw h (record {
              config = refl;
              file = refl;
              others = λ p x y.
                  write_all_at-Leaves s.inst.range_map.file (replicate (b - a) 1) (header_size + a)
                    s.disk p y;
            })
          ])
  ]

pub turn-Local :
    (backend : RemoteBackend) (pc : Pc) (s : InstanceState) → Local s (turn backend pc s).1
unfolding turn read_range release_inflight
turn-Local backend idle s = Local-refl s
turn-Local backend (called offset len) s = Local-refl s
turn-Local backend (waiting offset len range) s = reserve-Local s offset len range
turn-Local backend (holding offset len range) s = Local-refl s
turn-Local backend (asking offset len range) s = record {
  config = refl;
  file = refl;
  others = λ q a b. refl;
}
turn-Local backend (writing offset len range bytes written) s =
    write_more-Local s offset len range bytes written
turn-Local backend (marking offset len range) s = mark_slots-Local s offset len range
turn-Local backend (filling offset len range a b) s = record {
  config = refl;
  file = refl;
  others = λ q x y. refl;
}
turn-Local backend (leaving offset len range r) s = record {
  config = refl;
  file = refl;
  others = λ q a b. refl;
}
turn-Local backend (returned offset len r) s = Local-refl s

pub cancel-Local : (pc : Pc) (s : InstanceState) → Local s (cancel pc s).1
unfolding cancel release_inflight
cancel-Local idle s = Local-refl s
cancel-Local (called offset len) s = Local-refl s
cancel-Local (waiting offset len range) s = Local-refl s
cancel-Local (holding offset len range) s = Local-refl s
cancel-Local (asking offset len range) s = record {
  config = refl;
  file = refl;
  others = λ q a b. refl;
}
cancel-Local (writing offset len range bytes written) s = Local-refl s
cancel-Local (marking offset len range) s = Local-refl s
cancel-Local (filling offset len range a b) s = Local-refl s
cancel-Local (leaving offset len range r) s = Local-refl s
cancel-Local (returned offset len r) s = Local-refl s
