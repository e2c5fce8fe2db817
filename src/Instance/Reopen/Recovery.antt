-- ===== src/Instance/Reopen/Recovery.antt =====
-- `recovery_reconcile` keeps what is backed, also when it fails.
use lazyd.Base.{
  ℕ, ◌+◌, ◌*◌, ◌<◌, ◌≡◌, refl, ap, sym, ◌∙◌, inl, inr, Text, Bool, true, false, List, [], ◌∷◌,
  if◌then◌else◌, arith,
}
use lazyd.Errors.{Result, ok, err}
use lazyd.Exec.{Result-cases, continue, pure}
use lazyd.RangeMap.{MapState, clear_range_ready}
use lazyd.RangeMap.Slots.{slot_range-eq}
use lazyd.RangeMap.Update.{Wrote}
use lazyd.RangeMap.Presence.{Lseek, range_is_present}
use lazyd.RangeMap.Recovery.{ready_slots, reconcile_slot, reconcile_slots, recovery_reconcile}
use lazyd.RangeMap.Recovery.Slot.{AllBelow, ready_slots-AllBelow, len_of, clear_slot-Wrote}
use lazyd.Instance.Backed.{Backed}
use lazyd.Instance.Reopen.{cleared-Backed}

module _ (lseek : Lseek) (blob : ℕ → ℕ) (target : Text) where
  -- From `s` to `t` slots were cleared at most.
  pub record Recovers (s t : MapState) : Type 0 where
    pub backed : Backed blob target t.map t.disk
    pub unit : t.map.unit_bytes ≡ s.map.unit_bytes
    pub size : t.map.blob_size ≡ s.map.blob_size
    pub count : t.map.slot_count ≡ s.map.slot_count

  Recovers-refl : (s : MapState) → Backed blob target s.map s.disk → Recovers s s
  Recovers-refl s b = record { backed = b; unit = refl; size = refl; count = refl }

  Recovers-trans : (s t v : MapState) → Recovers s t → Recovers t v → Recovers s v
  Recovers-trans s t v a b = record {
    backed = b.backed;
    unit = b.unit ∙ a.unit;
    size = b.size ∙ a.size;
    count = b.count ∙ a.count;
  }

  Wrote-Recovers :
      (s t : MapState) (slot : ℕ) (r : Result (Unit {0}))
      → Backed blob target s.map s.disk
      → slot < s.map.slot_count
      → Wrote s slot (slot + 1) 0 r t
      → Recovers s t
  Wrote-Recovers s t slot r b lt w =
      let backed = cleared-Backed blob target s b slot r t lt w in
      elim w [
        | inl (_, e, _) ↦ record {
          backed = backed;
          unit = ap (λ m. m.unit_bytes) e;
          size = ap (λ m. m.blob_size) e;
          count = ap (λ m. m.slot_count) e;
        }
        | inr (_, _, _, e, _) ↦ record {
          backed = backed;
          unit = ap (λ m. m.unit_bytes) e;
          size = ap (λ m. m.blob_size) e;
          count = ap (λ m. m.slot_count) e;
        }
      ]

  module _ (s : MapState) (b : Backed blob target s.map s.disk) (slot : ℕ)
      (lt : slot < s.map.slot_count) where
    abbrev start : ℕ
    start = slot * s.map.unit_bytes

    abbrev len : ℕ
    len = len_of s.map.unit_bytes s.map.blob_size slot

    round :
        (r : Result Bool)
        → range_is_present lseek s.disk target start len ≡ r
        → Recovers s
            (continue r (λ present. if present then pure tt else clear_range_ready start len) s).1
    round (err e) q = Recovers-refl s b
    round (ok true) q = Recovers-refl s b
    round (ok false) q =
        Wrote-Recovers s (clear_range_ready start len s).1 slot (clear_range_ready start len s).0 b
          lt (clear_slot-Wrote s slot b.map lt)

    reconcile_slot-Recovers : Recovers s (reconcile_slot lseek target slot s).1
    unfolding reconcile_slot
    reconcile_slot-Recovers =
        rw (slot_range-eq s.map slot b.map lt, reconcile_slot)
          (round (range_is_present lseek s.disk target start len) refl)

  AllBelow-same : (n m : ℕ) (xs : List ℕ) → n ≡ m → AllBelow n xs → AllBelow m xs
  AllBelow-same n m xs e h = rw e at h

  reconcile_slots-Recovers :
      (xs : List ℕ) (s : MapState)
      → Backed blob target s.map s.disk
      → AllBelow s.map.slot_count xs
      → Recovers s (reconcile_slots lseek target xs s).1
  unfolding reconcile_slots
  reconcile_slots-Recovers [] s b below = Recovers-refl s b
  reconcile_slots-Recovers (x ∷ xs) s b (lt, below) =
      let t : MapState = (reconcile_slot lseek target x s).1 in
      let first = reconcile_slot-Recovers s b x lt in
      elim (Result-cases (reconcile_slot lseek target x s).0) [
        | inr (e, q) ↦ rw q first
        | inl (u, q) ↦ rw q (
            Recovers-trans s t (reconcile_slots lseek target xs t).1 first (
              reconcile_slots-Recovers xs t first.backed
                (AllBelow-same _ _ xs (sym first.count) below)))
      ]

  pub recovery_reconcile-Recovers :
      (s : MapState)
      → Backed blob target s.map s.disk
      → Recovers s (recovery_reconcile lseek target s).1
  unfolding recovery_reconcile
  recovery_reconcile-Recovers s b =
      reconcile_slots-Recovers (ready_slots 0 s.map.slots) s b
        (ready_slots-AllBelow 0 s.map.slot_count s.map.slots (omega (arith, b.map.sized)))
