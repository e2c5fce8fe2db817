-- ===== src/Instance/Tasks/Alone.antt =====
-- The turns of one call while no other has one, up to the return of `write_all_at` and of
-- `set_range_ready`.
pub mod Whole
use mathlib.Core.Logic.{dif_pos, dif_neg}
use mathlib.Core.WellFounded.{Acc}
use native.Mathlib.Decide.{dec_lt}
use native.Mathlib.Bridge.{le_prop}
use lazyd.Base.{
  ℕ, zero, suc, ◌+◌, ◌-◌, ◌<◌, ◌≡◌, refl, ap, sym, subst, ◌∙◌, inl, inr, Text, Bytes, Option, none,
  some, true, false, List, [], ◌∷◌, length, drop, replicate, ltb, ◌==◌, arith, Bool-cases,
  Option-cases, length-drop, lt→ltb, le→ltb,
}
use lazyd.Errors.{Result, Error, ok, err, io}
use lazyd.Exec.{Result-cases}
use lazyd.Disk.{Disk, write_at}
use lazyd.RangeMap.{
  header_size, is_range_ready, slots_for_range, set_range_ready, update_range, write_slots,
}
use lazyd.Remote.{RemoteBackend}
use lazyd.Instance.{
  InstanceState, Range, Shorter, drop-Shorter, Acc-Shorter, write_zero, write_round, write_loop,
  write_all_at, short_read, admit, is_busy, read_range, store, fetch, ensure_range,
  reserve_inflight, release_inflight, on_map,
}
use lazyd.Instance.Fetch.{store-short, store-failed, store-written}
use lazyd.Instance.Ensure.{fetch-ready, fetch-failed, fetch-stored}
use lazyd.Instance.Tasks.{
  marked, answered, admitted, reserve, look_again, Pc, called, waiting, holding, asking, marking,
  writing, filling, leaving, returned, wrote, with_disk, write_more, mark_slots, turn,
}

-- The turns of one task from a point and a state to another.
pub data Turns (backend : RemoteBackend) : Pc × InstanceState → Pc × InstanceState → Type 0 where
  stop : {x : Pc × InstanceState} → Turns backend x x
  more : {x y : Pc × InstanceState} → Turns backend (turn backend x.0 x.1) y → Turns backend x y

pub Turns-trans :
    {backend : RemoteBackend} {x y z : Pc × InstanceState}
    → Turns backend x y
    → Turns backend y z
    → Turns backend x z
Turns-trans stop t = t
Turns-trans (more r) t = more (Turns-trans r t)

drop-nil : (n : ℕ) → drop {A = ℕ} n [] ≡ []
drop-nil zero = refl
drop-nil (suc n) = refl

drop-drop : (m n : ℕ) (xs : Bytes) → drop n (drop m xs) ≡ drop (m + n) xs
drop-drop zero n xs = ap (λ (k : ℕ). drop k xs) (omega arith)
drop-drop (suc m) n [] = let e : suc m + n ≡ suc (m + n) = omega arith in rw e (drop-nil n)
drop-drop (suc m) n (x ∷ xs) =
    let e : suc m + n ≡ suc (m + n) = omega arith in rw e (drop-drop m n xs)

module _ (backend : RemoteBackend) (offset len : ℕ) (range : Range) where
  -- Where a call stands when `write_all_at` has returned.
  abbrev pub after_write : Result (Unit {0}) → Pc
  after_write (ok _) = marking offset len range
  after_write (err e) = leaving offset len range (err e)

  module _ (bytes : Bytes) where
    round :
        (again : (n : ℕ) → 0 < n → Disk → Result (Unit {0}) × Disk) (written : ℕ)
        (s : InstanceState) (out : Result ℕ × Disk)
        → ((n : ℕ) (h : 0 < n) (d : Disk)
            → Turns backend
                (writing offset len range bytes (written + n), with_disk s d)
                (after_write (again n h d).0, with_disk s (again n h d).1))
        → Turns backend
            (wrote offset len range bytes written out.0, with_disk s out.1)
            (after_write (write_round again out).0, with_disk s (write_round again out).1)
    unfolding write_round
    round again written s (err e, d) rest = stop
    round again written s (ok zero, d) rest = rw (dif_neg (dec_lt 0 0) (λ h. omega arith)) stop
    round again written s (ok (suc n), d) rest =
        let pos : 0 < suc n = omega arith in
        rw (dif_pos (dec_lt 0 (suc n)) le_prop pos) (rest (suc n) pos d)

    write_loop-alone :
        (xs : Bytes) (w : Acc Shorter xs) (written : ℕ) (s : InstanceState)
        → xs ≡ drop written bytes
        → Turns backend
            (writing offset len range bytes written, s)
            (
              after_write
                  (write_loop s.inst.config.target_path xs w (range.offset + written) s.disk).0,
              with_disk s
                  (write_loop s.inst.config.target_path xs w (range.offset + written) s.disk).1,
            )
    unfolding write_loop turn write_more
    write_loop-alone xs (Acc.intro _ smaller) written s q =
        let left : length xs ≡ length bytes - written = ap length q ∙ length-drop written bytes in
        elim (dec_lt 0 (length xs)) [
          | no p ↦
              rw (dif_neg (dec_lt 0 (length xs)) p)
                (more (rw (le→ltb written (length bytes) (omega arith)) stop))
          | yes p ↦ rw (dif_pos (dec_lt 0 (length xs)) le_prop p) (
              more (
                rw (lt→ltb written (length bytes) (omega arith)) (
                  rw (sym q) (
                    round
                      (λ n h.
                        write_loop s.inst.config.target_path (drop n xs)
                          (smaller (drop n xs) (drop-Shorter n xs h p))
                          (range.offset + written + n))
                      written s
                      (write_at s.inst.config.target_path xs (range.offset + written) s.disk)
                      (λ n h d.
                        let e : range.offset + written + n ≡ range.offset + (written + n) =
                          omega arith in
                        rw e (
                          write_loop-alone (drop n xs) (smaller (drop n xs) (drop-Shorter n xs h p))
                            (written + n) (with_disk s d)
                            (ap (drop n) q ∙ drop-drop written n bytes)))))))
        ]

    pub write_all_at-alone :
        (s : InstanceState)
        → Turns backend
            (writing offset len range bytes 0, s)
            (
              after_write (write_all_at s.inst.config.target_path bytes range.offset s.disk).0,
              with_disk s (write_all_at s.inst.config.target_path bytes range.offset s.disk).1,
            )
    unfolding write_all_at
    write_all_at-alone s =
        subst
          (λ at.
            Turns backend (writing offset len range bytes 0, s)
              (
                after_write (write_all_at s.inst.config.target_path bytes at s.disk).0,
                with_disk s (write_all_at s.inst.config.target_path bytes at s.disk).1,
              ))
          (omega arith)
          (write_loop-alone bytes (Acc-Shorter (suc (length bytes)) bytes (omega arith)) 0 s refl)

  abbrev marks : ℕ → ℕ → InstanceState → Result (Unit {0}) × Disk
  marks a b s =
      lazyd.Disk.write_all_at s.inst.range_map.file (replicate (b - a) 1) (header_size + a) s.disk

  slots-alone :
      (s : InstanceState) (a b : ℕ)
      → Turns backend
          (marked offset len range a b (marks a b s).0, with_disk s (marks a b s).1)
          (
            leaving offset len range (on_map (write_slots a b 1) s).0,
            (on_map (write_slots a b 1) s).1,
          )
  unfolding turn write_slots
  slots-alone s a b = elim (Result-cases (marks a b s).0) [
    | inr (e, q) ↦ rw (q, write_slots) stop
    | inl (u, q) ↦ rw (q, write_slots) (more stop)
  ]

  pub marking-alone :
      (s : InstanceState)
      → Turns backend
          (marking offset len range, s)
          (
            leaving offset len range (on_map (set_range_ready range.offset range.len) s).0,
            (on_map (set_range_ready range.offset range.len) s).1,
          )
  unfolding turn mark_slots set_range_ready update_range write_slots
  marking-alone s = elim (Result-cases (slots_for_range s.inst.range_map range.offset range.len)) [
    | inr (e, q) ↦ rw (q, mark_slots, update_range) (more (rw (q, mark_slots) stop))
    | inl ((a, b), q) ↦ elim (Bool-cases (a == b)) [
      | inl h ↦ rw (q, update_range, h) (more (rw (q, mark_slots, h) stop))
      | inr h ↦ rw (q, update_range, h) (more (rw (q, mark_slots, h) (slots-alone s a b)))
    ]
  ]
