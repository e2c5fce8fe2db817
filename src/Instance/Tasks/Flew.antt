-- ===== src/Instance/Tasks/Flew.antt =====
-- What a turn does to the ranges in flight: nothing, one more that overlaps none of them, or one
-- less, the task's own.
use lazyd.Base.{
  ℕ, zero, suc, ◌≡◌, refl, inl, inr, Bytes, Option, none, some, true, false, [], ◌∷◌, ◌++◌, length,
  ltb, ◌==◌, Bool-cases,
}
use lazyd.Errors.{Result, ok, err}
use lazyd.Exec.{Result-cases}
use lazyd.RangeMap.{is_range_ready, slots_for_range}
use lazyd.Remote.{RemoteBackend}
use lazyd.Instance.{
  InstanceState, Range, admit, is_busy, read_range, reserve_inflight, release_inflight,
}
use lazyd.Instance.Tasks.{
  Pc, idle, called, waiting, holding, asking, marking, writing, filling, leaving, returned, held,
  admitted, reserve, look_again, answered, wrote, marked, write_more, mark_slots, turn, cancel,
  is_resting,
}
use lazyd.Instance.Tasks.Flights.{released}

pub data Flew (s : InstanceState) (pc : Pc) (next : Pc × InstanceState) : Type 0 where
  keeps : held next.0 ≡ held pc → next.1.inst.inflight ≡ s.inst.inflight → Flew s pc next
  takes :
      (range : Range)
      → held pc ≡ none
      → held next.0 ≡ some range
      → is_busy range s ≡ false
      → next.1.inst.inflight ≡ s.inst.inflight ++ range ∷ []
      → Flew s pc next
  frees :
      (range : Range)
      → held pc ≡ some range
      → held next.0 ≡ none
      → next.1.inst.inflight ≡ released range s.inst.inflight
      → Flew s pc next

held-admitted : (offset len : ℕ) (r : Result (Option Range)) → held (admitted offset len r) ≡ none
held-admitted offset len (err e) = refl
held-admitted offset len (ok none) = refl
held-admitted offset len (ok (some range)) = refl

module _ (offset len : ℕ) (range : Range) where
  held-answered : (r : Result Bytes) → held (answered offset len range r) ≡ some range
  held-answered (err e) = refl
  held-answered (ok bytes) = elim (Bool-cases (length bytes == range.len)) [
    | inl h ↦ rw h refl
    | inr h ↦ rw h refl
  ]

  held-wrote :
      (bytes : Bytes) (written : ℕ) (r : Result ℕ)
      → held (wrote offset len range bytes written r) ≡ some range
  held-wrote bytes written (err e) = refl
  held-wrote bytes written (ok zero) = refl
  held-wrote bytes written (ok (suc n)) = refl

  held-marked :
      (a b : ℕ) (r : Result (Unit {0})) → held (marked offset len range a b r) ≡ some range
  held-marked a b (err e) = refl
  held-marked a b (ok u) = refl

  module _ (s : InstanceState) where
    reserve-Flew : Flew s (waiting offset len range) (reserve offset len range s)
    unfolding reserve_inflight
    reserve-Flew = elim (Bool-cases (is_busy range s)) [
      | inl h ↦ rw h (keeps refl refl)
      | inr h ↦ rw h (takes range refl refl h refl)
    ]

    look_again-Flew : Flew s (holding offset len range) (look_again offset len range s, s)
    look_again-Flew = elim (Bool-cases (is_range_ready s.inst.range_map offset len)) [
      | inl h ↦ rw h (keeps refl refl)
      | inr h ↦ rw h (keeps refl refl)
    ]

    write_more-Flew :
        (bytes : Bytes) (written : ℕ)
        → Flew s
            (writing offset len range bytes written)
            (write_more offset len range bytes written s)
    unfolding write_more
    write_more-Flew bytes written = elim (Bool-cases (ltb written (length bytes))) [
      | inl h ↦ rw h (keeps (held-wrote bytes written _) refl)
      | inr h ↦ rw h (keeps refl refl)
    ]

    mark_slots-Flew : Flew s (marking offset len range) (mark_slots offset len range s)
    unfolding mark_slots
    mark_slots-Flew =
        elim (Result-cases (slots_for_range s.inst.range_map range.offset range.len)) [
          | inr (e, q) ↦ rw (q, mark_slots) (keeps refl refl)
          | inl ((a, b), q) ↦
              rw (q, mark_slots)
                (elim (Bool-cases (a == b)) [
                  | inl h ↦ rw h (keeps refl refl)
                  | inr h ↦ rw h (keeps (held-marked a b _) refl)
                ])
        ]

pub turn-Flew :
    (backend : RemoteBackend) (pc : Pc) (s : InstanceState) → Flew s pc (turn backend pc s)
unfolding turn read_range release_inflight
turn-Flew backend idle s = keeps refl refl
turn-Flew backend (called offset len) s =
    keeps (held-admitted offset len (admit s.inst offset len)) refl
turn-Flew backend (waiting offset len range) s = reserve-Flew offset len range s
turn-Flew backend (holding offset len range) s = look_again-Flew offset len range s
turn-Flew backend (asking offset len range) s =
    keeps (held-answered offset len range (backend s.calls range.offset range.len)) refl
turn-Flew backend (writing offset len range bytes written) s =
    write_more-Flew offset len range s bytes written
turn-Flew backend (marking offset len range) s = mark_slots-Flew offset len range s
turn-Flew backend (filling offset len range a b) s = keeps refl refl
turn-Flew backend (leaving offset len range r) s = frees range refl refl refl
turn-Flew backend (returned offset len r) s = keeps refl refl

pub cancel-Flew : (pc : Pc) (s : InstanceState) → Flew s pc (cancel pc s)
unfolding cancel release_inflight
cancel-Flew idle s = keeps refl refl
cancel-Flew (called offset len) s = keeps refl refl
cancel-Flew (waiting offset len range) s = keeps refl refl
cancel-Flew (holding offset len range) s = keeps refl refl
cancel-Flew (asking offset len range) s = frees range refl refl refl
cancel-Flew (writing offset len range bytes written) s = keeps refl refl
cancel-Flew (marking offset len range) s = keeps refl refl
cancel-Flew (filling offset len range a b) s = keeps refl refl
cancel-Flew (leaving offset len range r) s = keeps refl refl
cancel-Flew (returned offset len r) s = keeps refl refl

pub resting-held : (pc : Pc) → is_resting pc ≡ true → held pc ≡ none
resting-held idle h = refl
resting-held (called offset len) h = refl
resting-held (waiting offset len range) h = refl
resting-held (holding offset len range) h = cc
resting-held (asking offset len range) h = cc
resting-held (writing offset len range bytes written) h = cc
resting-held (marking offset len range) h = cc
resting-held (filling offset len range a b) h = cc
resting-held (leaving offset len range r) h = cc
resting-held (returned offset len r) h = refl
