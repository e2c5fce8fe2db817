-- ===== src/RangeMap/Recovery/Leaves.antt =====
-- `recovery_reconcile` writes no file but the bitmap, whether it succeeds or fails.
use lazyd.Base.{ℕ, refl, ap, ◌∙◌, inl, inr, Text, text_eq, true, false, List, [], ◌∷◌}
use lazyd.Exec.{Result-cases}
use lazyd.RangeMap.{MapState, slot_range, clear_range_ready}
use lazyd.RangeMap.Only.{OnlyMap, update_range-OnlyMap}
use lazyd.RangeMap.Presence.{Lseek, range_is_present}
use lazyd.RangeMap.Recovery.{ready_slots, reconcile_slot, reconcile_slots, recovery_reconcile}

unchanged : (s : MapState) → OnlyMap s s
unchanged s = record { file = refl; others = λ q h. refl }

then_OnlyMap : (s t u : MapState) → OnlyMap s t → OnlyMap t u → OnlyMap s u
then_OnlyMap s t u a b = record {
  file = b.file ∙ a.file;
  others = λ q h. b.others q (ap (λ p. text_eq p q) a.file ∙ h) ∙ a.others q h;
}

module _ (lseek : Lseek) (layer : Text) where
  reconcile_slot-OnlyMap :
      (slot : ℕ) (s : MapState) → OnlyMap s (reconcile_slot lseek layer slot s).1
  unfolding reconcile_slot clear_range_ready
  reconcile_slot-OnlyMap slot s = elim (Result-cases (slot_range s.map slot)) [
    | inr (e, q) ↦ rw q (unchanged s)
    | inl ((offset, len), q) ↦
        elim (Result-cases (range_is_present lseek s.disk layer offset len)) [
          | inr (e, p) ↦ rw (q, p) (unchanged s)
          | inl (true, p) ↦ rw (q, p) (unchanged s)
          | inl (false, p) ↦ rw (q, p) (update_range-OnlyMap offset len 0 s)
        ]
  ]

  reconcile_slots-OnlyMap :
      (slots : List ℕ) (s : MapState) → OnlyMap s (reconcile_slots lseek layer slots s).1
  unfolding reconcile_slots
  reconcile_slots-OnlyMap [] s = unchanged s
  reconcile_slots-OnlyMap (slot ∷ slots) s =
      let t : MapState = (reconcile_slot lseek layer slot s).1 in
      let first = reconcile_slot-OnlyMap slot s in
      elim (Result-cases (reconcile_slot lseek layer slot s).0) [
        | inr (e, q) ↦ rw q first
        | inl (u, q) ↦ rw q (
            then_OnlyMap s t (reconcile_slots lseek layer slots t).1 first
              (reconcile_slots-OnlyMap slots t))
      ]

  pub recovery_reconcile-OnlyMap : (s : MapState) → OnlyMap s (recovery_reconcile lseek layer s).1
  unfolding recovery_reconcile
  recovery_reconcile-OnlyMap s = reconcile_slots-OnlyMap (ready_slots 0 s.map.slots) s
