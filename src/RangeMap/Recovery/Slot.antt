-- ===== src/RangeMap/Recovery/Slot.antt =====
-- The slots that `recovery_reconcile` visits, and what clearing one of them does.
use lazyd.Base.{
  ◌≢◌, ℕ, zero, suc, ◌+◌, ◌-◌, ◌*◌, ◌/◌, ◌≤◌, ◌<◌, ◌≡◌, ◌⊎◌, inl, inr, ◌↔◌, true, ◌&&◌, List, [],
  ◌∷◌, length, get_or, arith, leb, ltb, if◌then◌else◌, Bool-cases, div_ceil, min, ltb→lt, ltb→le,
}
use lazyd.RangeMap.{RangeMap, MapState, is_set, clear_range_ready, update_range}
use lazyd.RangeMap.Slots.{IsWellFormed, slot_inside, lt-div_ceil_iff}
use lazyd.RangeMap.Update.{filled, get_or-filled, update_range-Wrote, Wrote}
use lazyd.RangeMap.Recovery.{ready_slots}

abbrev pub IsMarked : RangeMap → ℕ → Type 0
IsMarked m slot = is_set (get_or m.slots slot 0) ≡ true

abbrev pub In : ℕ → List ℕ → Type 0
In k [] = ⊥
In k (x ∷ xs) = (k ≡ x) ⊎ In k xs

abbrev pub AllBelow : ℕ → List ℕ → Type 0
AllBelow n [] = Unit {0}
AllBelow n (x ∷ xs) = (x < n) × AllBelow n xs

pub In-ready_slots :
    (index k : ℕ) (slots : List ℕ)
    → is_set (get_or slots k 0) ≡ true
    → (j : ℕ) → j ≡ index + k
    → In j (ready_slots index slots)
unfolding ready_slots
In-ready_slots index k [] h j e = cc
In-ready_slots index zero (x ∷ xs) h j e = rw h (inl (omega arith))
In-ready_slots index (suc k) (x ∷ xs) h j e = elim (Bool-cases (is_set x)) [
  | inl q ↦ rw q (inr (In-ready_slots (index + 1) k xs h j (omega arith)))
  | inr q ↦ rw q (In-ready_slots (index + 1) k xs h j (omega arith))
]

pub ready_slots-AllBelow :
    (index n : ℕ) (slots : List ℕ) → index + length slots ≤ n → AllBelow n (ready_slots index slots)
unfolding ready_slots
ready_slots-AllBelow index n [] h = tt
ready_slots-AllBelow index n (x ∷ xs) h = elim (Bool-cases (is_set x)) [
  | inl q ↦ rw q (omega arith, ready_slots-AllBelow (index + 1) n xs (omega arith))
  | inr q ↦ rw q (ready_slots-AllBelow (index + 1) n xs (omega arith))
]

abbrev pub end_of : ℕ → ℕ → ℕ → ℕ
end_of u blob slot = slot * u + (min (slot * u + u) blob - slot * u)

cleared_at :
    (slot k x g : ℕ)
    → x ≡ (if leb slot k && ltb k (slot + 1) then 0 else g)
    → (is_set x ≡ true) ↔ ((is_set g ≡ true) × (k ≢ slot))
cleared_at slot k x g e = (λ h. ground arith, λ h. ground arith)

pub slot_start-eq : (u slot : ℕ) → 0 < u → slot * u / u ≡ slot
slot_start-eq u slot pos = grind arith

pub slot_end-eq :
    (u blob slot : ℕ) → 0 < u → slot * u < blob → div_ceil (end_of u blob slot) u ≡ slot + 1
slot_end-eq u blob slot pos h =
    let above = (lt-div_ceil_iff (end_of u blob slot) u slot pos).1 (omega arith) in
    elim (Bool-cases (ltb (slot + 1) (div_ceil (end_of u blob slot) u))) [
      | inl q ↦
          absurd (
            omega (arith, (lt-div_ceil_iff (end_of u blob slot) u (slot + 1) pos).0 (ltb→lt _ _ q)))
      | inr q ↦ omega (arith, ltb→le _ _ q)
    ]

abbrev pub len_of : ℕ → ℕ → ℕ → ℕ
len_of u blob slot = min (slot * u + u) blob - slot * u

pub clear_slot-Wrote :
    (s : MapState) (slot : ℕ)
    → IsWellFormed s.map
    → slot < s.map.slot_count
    → let out =
        clear_range_ready
          (slot * s.map.unit_bytes)
          (len_of s.map.unit_bytes s.map.blob_size slot)
          s in
      Wrote s slot (slot + 1) 0 out.0 out.1
unfolding clear_range_ready
clear_slot-Wrote s slot w lt =
    let u : ℕ = s.map.unit_bytes in
    let blob : ℕ = s.map.blob_size in
    let inside = slot_inside s.map slot w lt in
    let out = update_range (slot * u) (len_of u blob slot) 0 s in
    let wrote : Wrote s (slot * u / u) (div_ceil (end_of u blob slot) u) 0 out.0 out.1 =
      update_range-Wrote (slot * u) (len_of u blob slot) 0 s w (omega arith) (omega arith) in
    rw (slot_start-eq u slot w.unit_pos, slot_end-eq u blob slot w.unit_pos inside) at wrote

-- A slot that has been cleared is clear, and the others are as they were.
pub IsMarked-filled :
    (m : RangeMap) (slot k : ℕ)
    → IsWellFormed m
    → slot < m.slot_count
    → IsMarked (filled m slot (slot + 1) 0) k ↔ (IsMarked m k × (k ≢ slot))
IsMarked-filled m slot k w lt =
    let e = get_or-filled m slot (slot + 1) 0 k (omega arith) (omega arith) w in
    cleared_at slot k _ (get_or m.slots k 0) e
