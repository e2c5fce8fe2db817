-- ===== src/RangeMap/Effects.antt =====
-- `set_range_ready` and `clear_range_ready` on every outcome of the write.
use lazyd.Base.{
  ℕ, ◌+◌, ◌/◌, ◌≤◌, ◌<◌, ◌≡◌, ◌⊎◌, inl, inr, ◌↔◌, true, ◌&&◌, get_or, arith, leb, ltb,
  if◌then◌else◌, div_ceil,
}
use lazyd.Errors.{Error, Result, ok, err}
use lazyd.RangeMap.{RangeMap, MapState, set_range_ready, clear_range_ready, is_set}
use lazyd.RangeMap.Slots.{IsWellFormed, Touches, slot_end-le, Touches-iff, div_ceil-above}
use lazyd.RangeMap.Update.{IsReady, filled, filled-IsWellFormed, get_or-filled, update_range-Wrote}

set_if :
    (a b k x g : ℕ)
    → x ≡ (if leb a k && ltb k b then 1 else g)
    → (is_set x ≡ true) ↔ ((is_set g ≡ true) ⊎ ((a ≤ k) × (k < b)))
set_if a b k x g e = (λ h. ground arith, λ h. ground arith)

cleared_if :
    (a b k x g : ℕ)
    → x ≡ (if leb a k && ltb k b then 0 else g)
    → (is_set x ≡ true) ↔ ((is_set g ≡ true) × ¬ ((a ≤ k) × (k < b)))
cleared_if a b k x g e = (λ h. ground arith, λ h. ground arith)

-- The slots of a range within the blob are a slice of the map's slots.
module _ (m : RangeMap) (start len : ℕ) (w : IsWellFormed m) (pos : 0 < len)
    (within : start + len ≤ m.blob_size) where
  pub ordered : start / m.unit_bytes ≤ div_ceil (start + len) m.unit_bytes
  ordered = omega (arith, div_ceil-above start (start + len) m.unit_bytes w.unit_pos (omega arith))

  abbrev pub range_filled : ℕ → RangeMap
  range_filled value = filled m (start / m.unit_bytes) (div_ceil (start + len) m.unit_bytes) value

  pub range_filled-IsWellFormed : (value : ℕ) → IsWellFormed (range_filled value)
  range_filled-IsWellFormed value =
      filled-IsWellFormed m (start / m.unit_bytes) (div_ceil (start + len) m.unit_bytes) value
        ordered (slot_end-le m (start + len) w within) w

  slot_of-filled :
      (value slot : ℕ)
      → get_or (range_filled value).slots slot 0 ≡ (
          if leb (start / m.unit_bytes) slot && ltb slot (div_ceil (start + len) m.unit_bytes)
          then value
          else get_or m.slots slot 0)
  slot_of-filled value slot =
      get_or-filled m (start / m.unit_bytes) (div_ceil (start + len) m.unit_bytes) value slot
        ordered (slot_end-le m (start + len) w within) w

  -- `set_if` or `cleared_if` at the slot of byte `i`, and what that slot is.
  touched :
      (i : ℕ)
      → ((start / m.unit_bytes ≤ i / m.unit_bytes)
          × (i / m.unit_bytes < div_ceil (start + len) m.unit_bytes))
        ↔ Touches m start (start + len) (i / m.unit_bytes)
  touched i = Touches-iff m start (start + len) (i / m.unit_bytes) w.unit_pos

  pub IsReady-set :
      (i : ℕ)
      → IsReady (range_filled 1) i
        ↔ (IsReady m i ⊎ Touches m start (start + len) (i / m.unit_bytes))
  IsReady-set i =
      let s =
        set_if (start / m.unit_bytes) (div_ceil (start + len) m.unit_bytes) (i / m.unit_bytes) _
          (get_or m.slots (i / m.unit_bytes) 0) (slot_of-filled 1 (i / m.unit_bytes)) in
      (
        λ h. elim (s.0 h) [ inl old ↦ inl old | inr new ↦ inr ((touched i).0 new) ],
        λ h. s.1 (elim h [ inl old ↦ inl old | inr new ↦ inr ((touched i).1 new) ]),
      )

  pub IsReady-cleared :
      (i : ℕ)
      → IsReady (range_filled 0) i
        ↔ (IsReady m i × ¬ Touches m start (start + len) (i / m.unit_bytes))
  IsReady-cleared i =
      let s =
        cleared_if (start / m.unit_bytes) (div_ceil (start + len) m.unit_bytes) (i / m.unit_bytes) _
          (get_or m.slots (i / m.unit_bytes) 0) (slot_of-filled 0 (i / m.unit_bytes)) in
      (
        λ h. ((s.0 h).0, λ q. (s.0 h).1 ((touched i).1 q)),
        λ h. s.1 (h.0, λ q. h.1 ((touched i).0 q)),
      )

-- What an update of the slots leaves in memory, whether the write to the file succeeds or fails.
abbrev pub Ends {ℓ} : MapState → Result (Unit {0}) × MapState → (RangeMap → Type ℓ) → Type ℓ
Ends s (r, t) Done =
    ((r ≡ ok tt) × IsWellFormed t.map × Done t.map) ⊎ ((e : Error) × (r ≡ err e) × (t.map ≡ s.map))

-- After set_range_ready of a range within the blob that is not empty, either it succeeded, the map
-- is well-formed, and the bytes that are ready are those that were and those whose slot shares a
-- byte with the range; or it failed and memory is as it was.
pub set_range_ready_lem :
    (start len : ℕ) (s : MapState)
    → IsWellFormed s.map
    → 0 < len
    → start + len ≤ s.map.blob_size
    → Ends s (set_range_ready start len s) (λ m.
      (i : ℕ)
      → IsReady m i ↔ (IsReady s.map i ⊎ Touches s.map start (start + len) (i / s.map.unit_bytes)))
unfolding set_range_ready
set_range_ready_lem start len s w pos within =
    elim (update_range-Wrote start len 1 s w pos within) [
      | inl (q, e, _) ↦ inl (
        q,
        rw e (range_filled-IsWellFormed s.map start len w pos within 1),
        rw e (IsReady-set s.map start len w pos within),
      )
      | inr (x, _, q, e, _) ↦ inr (x, q, e)
    ]

-- After clear_range_ready of a range within the blob that is not empty, either it succeeded, the
-- map is well-formed, and the bytes that are ready are those that were and whose slot shares no
-- byte with the range; or it failed and memory is as it was.
pub clear_range_ready_lem :
    (start len : ℕ) (s : MapState)
    → IsWellFormed s.map
    → 0 < len
    → start + len ≤ s.map.blob_size
    → Ends s (clear_range_ready start len s) (λ m.
      (i : ℕ)
      → IsReady m i
        ↔ (IsReady s.map i × ¬ Touches s.map start (start + len) (i / s.map.unit_bytes)))
unfolding clear_range_ready
clear_range_ready_lem start len s w pos within =
    elim (update_range-Wrote start len 0 s w pos within) [
      | inl (q, e, _) ↦ inl (
        q,
        rw e (range_filled-IsWellFormed s.map start len w pos within 0),
        rw e (IsReady-cleared s.map start len w pos within),
      )
      | inr (x, _, q, e, _) ↦ inr (x, q, e)
    ]
