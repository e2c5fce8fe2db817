-- ===== src/Instance/Tasks/Release.antt =====
-- A call of `ensure_range` that has a range in flight gives it back after a bounded number of its
-- own turns.
use lazyd.Base.{
  ℕ, zero, suc, ◌+◌, ◌-◌, ◌≤◌, ◌<◌, ◌≡◌, refl, ap, ◌∙◌, subst, false, not, ◌&&◌, ◌⊎◌, inl, inr,
  Bytes, some, length, ltb, ◌==◌, ==→eq, arith, Bool-cases, ltb→lt,
}
use lazyd.Errors.{Result, ok, err}
use lazyd.Exec.{Result-cases}
use lazyd.RangeMap.{is_range_ready, slots_for_range}
use lazyd.Remote.{RemoteBackend}
use lazyd.Instance.{InstanceState, Range, read_range}
use lazyd.Instance.{range_eq}
use lazyd.Instance.Ensure.{range_eq_refl}
use lazyd.Instance.Tasks.Flights.{is_in, released, is_in-released}
use lazyd.Instance.Tasks.Flew.{keeps, takes, frees, turn-Flew}
use lazyd.Instance.Tasks.{
  Pc, idle, called, waiting, holding, asking, marking, writing, filling, leaving, returned, held,
  look_again, answered, wrote, marked, write_more, mark_slots, turn,
}

-- A bound on the turns that are left, for a call that has a range in flight.
abbrev pub turns_left : Pc → ℕ
turns_left (holding offset len range) = range.len + 6
turns_left (asking offset len range) = range.len + 5
turns_left (writing offset len range bytes written) = length bytes - written + 4
turns_left (marking offset len range) = 3
turns_left (filling offset len range a b) = 2
turns_left (leaving offset len range r) = 1
turns_left _ = 0

-- Where a call stands after `n` turns, when the `k`-th of them finds the shared state `ss k`.
abbrev pub own_turns : RemoteBackend → (ℕ → InstanceState) → ℕ → Pc → Pc
own_turns backend ss zero pc = pc
own_turns backend ss (suc n) pc = own_turns backend (λ k. ss (suc k)) n (turn backend pc (ss 0)).0

abbrev pub IsBack : Pc → Type 0
IsBack pc = (offset len : ℕ) × (r : Result (Unit {0})) × (pc ≡ returned offset len r)

-- A turn that ends in `next`, of a call with `range` in flight and fewer than `n` turns left.
abbrev Nearer : Range → ℕ → Pc → Type 0
Nearer range n next = (turns_left next < n) × ((held next ≡ some range) ⊎ IsBack next)

module _ (offset len : ℕ) (range : Range) where
  answered-Nearer : (r : Result Bytes) → Nearer range (range.len + 5) (answered offset len range r)
  answered-Nearer (err e) = (omega arith, inl refl)
  answered-Nearer (ok bytes) = elim (Bool-cases (length bytes == range.len)) [
    | inl h ↦ let full = ==→eq (length bytes) range.len h in rw h (omega arith, inl refl)
    | inr h ↦ rw h (omega arith, inl refl)
  ]

  wrote-Nearer :
      (bytes : Bytes) (written : ℕ) (r : Result ℕ)
      → written < length bytes
      → Nearer range (length bytes - written + 4) (wrote offset len range bytes written r)
  wrote-Nearer bytes written (err e) lt = (omega arith, inl refl)
  wrote-Nearer bytes written (ok zero) lt = (omega arith, inl refl)
  wrote-Nearer bytes written (ok (suc n)) lt = (omega arith, inl refl)

  marked-Nearer : (a b : ℕ) (r : Result (Unit {0})) → Nearer range 3 (marked offset len range a b r)
  marked-Nearer a b (err e) = (omega arith, inl refl)
  marked-Nearer a b (ok u) = (omega arith, inl refl)

  module _ (s : InstanceState) where
    look_again-Nearer : Nearer range (range.len + 6) (look_again offset len range s)
    look_again-Nearer = elim (Bool-cases (is_range_ready s.inst.range_map offset len)) [
      | inl h ↦ rw h (omega arith, inl refl)
      | inr h ↦ rw h (omega arith, inl refl)
    ]

    write_more-Nearer :
        (bytes : Bytes) (written : ℕ)
        → Nearer range (length bytes - written + 4) (write_more offset len range bytes written s).0
    unfolding write_more
    write_more-Nearer bytes written = elim (Bool-cases (ltb written (length bytes))) [
      | inl h ↦ rw h (wrote-Nearer bytes written _ (ltb→lt written (length bytes) h))
      | inr h ↦ rw h (omega arith, inl refl)
    ]

    mark_slots-Nearer : Nearer range 3 (mark_slots offset len range s).0
    unfolding mark_slots
    mark_slots-Nearer =
        elim (Result-cases (slots_for_range s.inst.range_map range.offset range.len)) [
          | inr (e, q) ↦ rw (q, mark_slots) (omega arith, inl refl)
          | inl ((a, b), q) ↦
              rw (q, mark_slots)
                (elim (Bool-cases (a == b)) [
                  | inl h ↦ rw h (omega arith, inl refl)
                  | inr h ↦ rw h (marked-Nearer a b _)
                ])
        ]

turn-Nearer :
    (backend : RemoteBackend) (pc : Pc) (s : InstanceState) (range : Range)
    → held pc ≡ some range
    → Nearer range (turns_left pc) (turn backend pc s).0
unfolding turn read_range
turn-Nearer backend idle s range q = cc
turn-Nearer backend (called offset len) s range q = cc
turn-Nearer backend (waiting offset len own) s range q = cc
turn-Nearer backend (holding offset len own) s range q =
    let e : own ≡ range = cc in rw e (look_again-Nearer offset len range s)
turn-Nearer backend (asking offset len own) s range q =
    let e : own ≡ range = cc in
    rw e (answered-Nearer offset len range (backend s.calls range.offset range.len))
turn-Nearer backend (writing offset len own bytes written) s range q =
    let e : own ≡ range = cc in rw e (write_more-Nearer offset len range s bytes written)
turn-Nearer backend (marking offset len own) s range q =
    let e : own ≡ range = cc in rw e (mark_slots-Nearer offset len range s)
turn-Nearer backend (filling offset len own a b) s range q = (omega arith, inl q)
turn-Nearer backend (leaving offset len own r) s range q = (omega arith, inr (offset, len, r, refl))
turn-Nearer backend (returned offset len r) s range q = cc

held-turns_left : (pc : Pc) (range : Range) → held pc ≡ some range → 0 < turns_left pc
held-turns_left idle range q = cc
held-turns_left (called offset len) range q = cc
held-turns_left (waiting offset len own) range q = cc
held-turns_left (returned offset len r) range q = cc
held-turns_left (holding offset len own) range q = omega arith
held-turns_left (asking offset len own) range q = omega arith
held-turns_left (writing offset len own bytes written) range q = omega arith
held-turns_left (marking offset len own) range q = omega arith
held-turns_left (filling offset len own a b) range q = omega arith
held-turns_left (leaving offset len own r) range q = omega arith

module _ (backend : RemoteBackend) where
  IsBack-stays :
      (n : ℕ) (ss : ℕ → InstanceState) (pc : Pc) → IsBack pc → IsBack (own_turns backend ss n pc)
  unfolding turn
  IsBack-stays zero ss pc b = b
  IsBack-stays (suc n) ss pc (offset, len, r, q) =
      IsBack-stays n (λ k. ss (suc k)) (turn backend pc (ss 0)).0 (offset, len, r, rw q refl)

  enough_turns :
      (n : ℕ) (ss : ℕ → InstanceState) (pc : Pc)
      → turns_left pc ≤ n
      → ((range : Range) × (held pc ≡ some range)) ⊎ IsBack pc
      → IsBack (own_turns backend ss n pc)
  enough_turns n ss pc le (inr b) = IsBack-stays n ss pc b
  enough_turns zero ss pc le (inl (range, q)) = absurd (omega (arith, held-turns_left pc range q))
  enough_turns (suc n) ss pc le (inl (range, q)) =
      let near = turn-Nearer backend pc (ss 0) range q in
      enough_turns n (λ k. ss (suc k)) (turn backend pc (ss 0)).0 (omega (arith, near.0))
        (elim near.1 [ inl h ↦ inl (range, h) | inr b ↦ inr b ])

  -- A turn from `s` to `t` takes `range`, and it alone, out of the ranges in flight.
  abbrev pub Releases : Range → InstanceState → InstanceState → Type 0
  Releases range s t =
      (is_in range t.inst.inflight ≡ false)
      × ((r : Range) → range_eq r range ≡ false → is_in r t.inst.inflight ≡ is_in r s.inst.inflight)

  -- One of the first `n` turns releases the range, and with it the call is back.
  abbrev pub GivesBack : (ℕ → InstanceState) → Pc → Range → ℕ → Type 0
  GivesBack ss pc range n =
      (m : ℕ) × (m < n)
      × Releases range (ss m) (turn backend (own_turns backend ss m pc) (ss m)).1
      × IsBack (own_turns backend ss (suc m) pc)

  last_turn :
      (pc : Pc) (s : InstanceState) (range : Range)
      → held pc ≡ some range
      → IsBack (turn backend pc s).0
      → Releases range s (turn backend pc s).1
  last_turn pc s range q (offset, len, r, back) = elim (turn-Flew backend pc s) [
    | keeps same list ↦ absurd (let e = ap held back in cc)
    | takes own free _ _ _ ↦ absurd cc
    | frees own before free list ↦
        let same : own ≡ range = cc in
        let left : (turn backend pc s).1.inst.inflight ≡ released range s.inst.inflight =
          subst (λ x. (turn backend pc s).1.inst.inflight ≡ released x s.inst.inflight) same list in
        let rest : (x : Range)
            → is_in x (turn backend pc s).1.inst.inflight
              ≡ (is_in x s.inst.inflight && not (range_eq x range)) =
          λ x. ap (is_in x) left ∙ is_in-released x range s.inst.inflight in
        (ground (arith, rest range, range_eq_refl range), λ x other. ground (arith, rest x))
  ]

  gives_back :
      (n : ℕ) (ss : ℕ → InstanceState) (pc : Pc) (range : Range)
      → turns_left pc ≤ n
      → held pc ≡ some range
      → GivesBack ss pc range n
  gives_back zero ss pc range le q = absurd (omega (arith, held-turns_left pc range q))
  gives_back (suc n) ss pc range le q =
      let near = turn-Nearer backend pc (ss 0) range q in
      elim near.1 [
        | inr b ↦ (zero, omega arith, last_turn pc (ss 0) range q b, b)
        | inl h ↦
            let (m, lt, released, back) =
              gives_back n (λ k. ss (suc k)) (turn backend pc (ss 0)).0 range
                (omega (arith, near.0)) h in
            (suc m, omega arith, released, back)
      ]

  -- For a call that has a range in flight, whatever shared state each of its own turns finds and
  -- whatever the backend answers: one of its next turns_left turns (a call that has just taken its
  -- range has as many as the range is long, and six) takes the range out of the ranges in flight,
  -- leaves every other range there as it was, and brings the call back; and behind turns_left of
  -- its turns it is back.
  pub own_turns_lem :
      (ss : ℕ → InstanceState) (pc : Pc) (range : Range)
      → held pc ≡ some range
      → GivesBack ss pc range (turns_left pc) × IsBack (own_turns backend ss (turns_left pc) pc)
  own_turns_lem ss pc range q = (
    gives_back (turns_left pc) ss pc range (omega arith) q,
    enough_turns (turns_left pc) ss pc (omega arith) (inl (range, q)),
  )
