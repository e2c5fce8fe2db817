-- ===== src/Instance/Tasks/Turns.antt =====
-- One turn of a call of `ensure_range`: the instance serves the blob still, no byte of it is lost,
-- and what is known of the call holds at the point that it has come to.

pub mod Writing
pub mod Marking
use lazyd.Base.{
  ℕ, ◌+◌, ◌≤◌, ◌<◌, ◌≡◌, refl, ap, sym, subst, ◌∙◌, ◌⊎◌, inl, inr, Bytes, Option, true, false, none,
  some, List, [], ◌∷◌, ◌++◌, retain, not, length, get_or, arith, ==→eq, ◌==◌, Bool-cases,
  if◌then◌else◌,
}
use lazyd.Errors.{Result, Error, ok, err}
use lazyd.Exec.{Result-cases}
use lazyd.RangeMap.{is_range_ready}
use lazyd.RangeMap.Update.{IsReady, is_range_ready_iff}
use lazyd.Remote.{RemoteBackend}
use lazyd.Instance.{
  InstanceState, Range, admit, is_busy, read_range, reserve_inflight, release_inflight, short_read,
  range_eq,
}
use lazyd.Instance.Amplify.{Amplified}
use lazyd.Instance.Ensure.{Admitted, refused, done, wanted, admit-Admitted}
use lazyd.Instance.Fetch.{Serves, IsHonest}
use lazyd.Instance.Tasks.{
  Pc, idle, called, waiting, holding, asking, marking, writing, filling, leaving, returned,
  admitted, reserve, look_again, answered, turn, cancel,
}
use lazyd.Instance.Tasks.Facts.{Grows, Wants, WantsIn, AllReady, Fact, Genuine, Fact-stays}

pub record Turned (blob : ℕ → ℕ) (s : InstanceState) (pc : Pc) (t : InstanceState) : Type 0 where
  pub serves : Serves blob t
  pub grows : Grows blob s t
  pub fact : Fact blob t pc

-- A change of what is in flight or of what was asked for
module _ (blob : ℕ → ℕ) (s : InstanceState) (v : Serves blob s) where
  pub Grows-refl : Grows blob s s
  Grows-refl = record {
    config = refl;
    file = refl;
    unit = refl;
    size = refl;
    ready = λ i h. h;
    good = λ i h. h;
  }

  pub Turned-same : (pc : Pc) → Fact blob s pc → Turned blob s pc s
  Turned-same pc f = record { serves = v; grows = Grows-refl; fact = f }

  AllReady-request :
      (offset len : ℕ)
      → offset + len ≤ s.inst.range_map.blob_size
      → is_range_ready s.inst.range_map offset len ≡ true
      → AllReady s offset len
  AllReady-request offset len within q i lo hi = (
    omega arith,
    (is_range_ready_iff s.inst.range_map offset len v.backed.map within).0 q i lo hi,
  )

  AllReady-done :
      (offset len : ℕ)
      → (len ≡ 0)
        ⊎ ((offset + len ≤ s.inst.range_map.blob_size)
            × (is_range_ready s.inst.range_map offset len ≡ true))
      → AllReady s offset len
  AllReady-done offset len (inl z) i lo hi = absurd (omega arith)
  AllReady-done offset len (inr (within, q)) i lo hi = AllReady-request offset len within q i lo hi

  WantsIn-Amplified :
      (offset len : ℕ) (range : Range)
      → 0 < len
      → offset + len ≤ s.inst.range_map.blob_size
      → Amplified s.inst.config.fetch.unit_bytes s.inst.config.blob.size offset len range
      → WantsIn s offset len range
  WantsIn-Amplified offset len range pos within a = record {
    pos = pos;
    within = within;
    amplified =
        subst (λ u. Amplified u s.inst.range_map.blob_size offset len range) v.consistent.unit
          (subst (λ n. Amplified s.inst.config.fetch.unit_bytes n offset len range)
            v.consistent.size a);
  }

  pub called-Turned :
      (offset len : ℕ) → Turned blob s (admitted offset len (admit s.inst offset len)) s
  called-Turned offset len = elim (admit-Admitted s.inst offset len v.consistent) [
    | refused e q ↦ rw q (Turned-same (returned offset len (err e)) (λ z. cc))
    | done q h ↦ rw q (Turned-same (returned offset len (ok tt)) (λ z. AllReady-done offset len h))
    | wanted range q pos within a ↦
        rw q
          (Turned-same (waiting offset len range) (WantsIn-Amplified offset len range pos within a))
  ]

  pub holding-Turned :
      (offset len : ℕ) (range : Range)
      → WantsIn s offset len range
      → Turned blob s (look_again offset len range s) s
  holding-Turned offset len range w =
      elim (Bool-cases (is_range_ready s.inst.range_map offset len)) [
        | inl h ↦ rw h (
            Turned-same (leaving offset len range (ok tt))
              (w, λ z. AllReady-request offset len w.within h))
        | inr h ↦ rw h (Turned-same (asking offset len range) w)
      ]

  -- A change of the ranges in flight or of what was asked for
  module _ (xs : List Range) (calls : List (ℕ × ℕ)) where
    abbrev with_flights : InstanceState
    with_flights = record s { inst = record s.inst { inflight = xs }; calls = calls }

    with_flights-Grows : Grows blob s with_flights
    with_flights-Grows = record {
      config = refl;
      file = refl;
      unit = refl;
      size = refl;
      ready = λ i h. h;
      good = λ i h. h;
    }

    with_flights-Turned : (pc : Pc) → Fact blob s pc → Turned blob s pc with_flights
    with_flights-Turned pc f = record {
      serves = record {
        backed = v.backed;
        consistent = record {
          map = v.consistent.map;
          unit = v.consistent.unit;
          size = v.consistent.size;
        };
      };
      grows = with_flights-Grows;
      fact = Fact-stays blob s with_flights with_flights-Grows pc f;
    }

  pub waiting-Turned :
      (offset len : ℕ) (range : Range)
      → WantsIn s offset len range
      → Turned blob s (reserve offset len range s).0 (reserve offset len range s).1
  unfolding reserve_inflight
  waiting-Turned offset len range w = elim (Bool-cases (is_busy range s)) [
    | inl h ↦ rw h (Turned-same (waiting offset len range) w)
    | inr h ↦
        rw h
          (with_flights-Turned (s.inst.inflight ++ range ∷ []) s.calls (holding offset len range) w)
  ]

  pub released-Turned :
      (range : Range) (pc : Pc) → Fact blob s pc → Turned blob s pc (release_inflight range s)
  unfolding release_inflight
  released-Turned range pc f =
      with_flights-Turned (retain (λ item. not (range_eq item range)) s.inst.inflight) s.calls pc f

  module _ (backend : RemoteBackend) (honest : IsHonest blob backend) (offset len : ℕ)
      (range : Range) (w : WantsIn s offset len range) where
    answered-Fact :
        (r : Result Bytes)
        → backend s.calls range.offset range.len ≡ r
        → Fact blob s (answered offset len range r)
    answered-Fact (err e) q = (w, λ z. cc)
    answered-Fact (ok bytes) q = elim (Bool-cases (length bytes == range.len)) [
      | inr h ↦ rw h (w, λ z. cc)
      | inl h ↦
          let full = ==→eq (length bytes) range.len h in
          rw h (
            w,
            (full, λ k lt. honest s.calls range.offset range.len bytes q full k (omega arith)),
            omega arith,
            λ i lo hi. absurd (omega arith),
          )
    ]

    pub asking-Turned :
        Turned blob s
          (answered offset len range (read_range backend range s).0)
          (read_range backend range s).1
    unfolding read_range
    asking-Turned =
        with_flights-Turned s.inst.inflight (s.calls ++ (range.offset, range.len) ∷ []) _
          (answered-Fact (backend s.calls range.offset range.len) refl)
