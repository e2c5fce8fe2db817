-- ===== src/RangeMap/Update.antt =====
-- What `is_range_ready`, `set_range_ready` and `clear_range_ready` do, byte by byte.
use lazyd.Base.{
  ℕ, zero, suc, ◌+◌, ◌-◌, ◌*◌, ◌/◌, ◌≤◌, ◌<◌, ◌≡◌, refl, sym, ◌⊎◌, inl, inr, subst, ◌∙◌, true,
  false, ◌&&◌, List, get_or, all, replicate, arith, leb, ltb, if◌then◌else◌, ◌↔◌, Bool-cases,
  div_ceil, take, Option, Text, text_eq,
}
use lazyd.Errors.{Error, io, Result, ok, err}
use lazyd.Disk.{File, put_file, splice, file_at, write_all_at}
use lazyd.Disk.Laws.{Outcome-cases}
use lazyd.RangeMap.{
  RangeMap, MapState, slots_for_range, is_range_ready, is_set, slice, fill, update_range,
  write_slots, header_size,
}
use lazyd.RangeMap.Slots.{
  IsWellFormed, Touches, slots_for_range-eq, slot_end-le, Touches-iff, div_ceil-above,
}
use lazyd.RangeMap.Fill.{all-slice_iff, get_or-fill, length-fill}

-- The slot of byte `i` is set.
abbrev pub IsReady : RangeMap → ℕ → Type 0
IsReady m i = is_set (get_or m.slots (i / m.unit_bytes) 0) ≡ true

byte_in :
    (m : RangeMap) (start end slot : ℕ)
    → 0 < m.unit_bytes
    → Touches m start end slot
    → start < end
    → (i : ℕ) × (start ≤ i) × (i < end) × (i / m.unit_bytes ≡ slot)
byte_in m start end slot pos t ne = elim (Bool-cases (leb start (slot * m.unit_bytes))) [
  | inl h ↦ (slot * m.unit_bytes, ground arith, t.0, grind arith)
  | inr h ↦ (start, ground arith, ne, grind arith)
]

pub in_range-Touches :
    (m : RangeMap) (start end i : ℕ)
    → 0 < m.unit_bytes
    → start ≤ i
    → i < end
    → Touches m start end (i / m.unit_bytes)
in_range-Touches m start end i pos lo hi = (grind arith, grind arith)

is_range_ready-eq :
    (m : RangeMap) (start len : ℕ)
    → IsWellFormed m
    → 0 < len
    → start + len ≤ m.blob_size
    → is_range_ready m start len
      ≡ all is_set (slice (start / m.unit_bytes) (div_ceil (start + len) m.unit_bytes) m.slots)
unfolding is_range_ready
is_range_ready-eq m start len w pos within =
    rw (slots_for_range-eq m start len w pos within, is_range_ready)

-- In a well-formed map, a range within the blob is ready exactly when the slot of each of its
-- bytes is set.
pub is_range_ready_iff :
    (m : RangeMap) (start len : ℕ)
    → IsWellFormed m
    → start + len ≤ m.blob_size
    → (is_range_ready m start len ≡ true) ↔ ((i : ℕ) → start ≤ i → i < start + len → IsReady m i)
unfolding is_range_ready slots_for_range
is_range_ready_iff m start zero w within = (λ h i lo hi. absurd (omega arith), λ h. refl)
is_range_ready_iff m start (suc n) w within =
    let end : ℕ = start + suc n in
    let touched = Touches-iff m start end in
    let slots =
      all-slice_iff is_set (start / m.unit_bytes) (div_ceil end m.unit_bytes) m.slots
        (rw w.sized (slot_end-le m end w within)) in
    (
      λ h i lo hi.
          let q =
            (touched (i / m.unit_bytes) w.unit_pos).1
              (in_range-Touches m start end i w.unit_pos lo hi) in
          slots.0 (sym (is_range_ready-eq m start (suc n) w (omega arith) within) ∙ h)
            (i / m.unit_bytes) q.0 q.1,
      λ h.
          is_range_ready-eq m start (suc n) w (omega arith) within
          ∙ slots.1 (λ k lo hi.
            let b =
              byte_in m start end k w.unit_pos ((touched k w.unit_pos).0 (lo, hi)) (omega arith) in
            subst (λ j. is_set (get_or m.slots j 0) ≡ true) b.3 (h b.0 b.1 b.2)),
    )

-- A range that ends behind the blob, or overflows, is not ready.
pub is_range_ready_outside :
    (m : RangeMap) (start len : ℕ)
    → 0 < len
    → m.blob_size < start + len
    → is_range_ready m start len ≡ false
unfolding is_range_ready slots_for_range
is_range_ready_outside m start len pos over = ground arith

-- The map with a slice of its slots filled.
abbrev pub filled : RangeMap → ℕ → ℕ → ℕ → RangeMap
filled m a b value = record m { slots = fill a b value m.slots }

-- The bitmap file with `bytes` written over its slots from `a` on.
abbrev pub files_after : MapState → ℕ → List ℕ → Text → Option File
files_after s a bytes =
    put_file s.disk.files s.map.file (splice (file_at s.disk s.map.file) (header_size + a) bytes)

-- The outcomes of a write to the slots from `a` up to `b`: the file has the bytes and then memory
-- has them; or the write fails, the file has a beginning of them and memory is as it was.
abbrev pub Wrote : MapState → ℕ → ℕ → ℕ → Result (Unit {0}) → MapState → Type 0
Wrote s a b value r t =
    ((r ≡ ok tt)
      × (t.map ≡ filled s.map a b value)
      × (t.disk.files ≡ files_after s a (replicate (b - a) value)))
    ⊎ ((e : Error) × (n : ℕ) × (r ≡ err e)
        × (t.map ≡ s.map)
        × (t.disk.files ≡ files_after s a (take n (replicate (b - a) value))))

pub write_slots-Wrote :
    (a b value : ℕ) (s : MapState)
    → Wrote s a b value (write_slots a b value s).0 (write_slots a b value s).1
unfolding write_slots write_all_at
write_slots-Wrote a b value s = elim (Outcome-cases (s.disk.plan s.disk.calls)) [
  | inl (n, e, q) ↦ inr (io e, n, ground arith, ground arith, ground arith)
  | inr (inl q) ↦ inl (ground arith, ground arith, ground arith)
  | inr (inr (n, q)) ↦ inl (ground arith, ground arith, ground arith)
]

update_range-eq :
    (start len value : ℕ) (s : MapState)
    → IsWellFormed s.map
    → 0 < len
    → start + len ≤ s.map.blob_size
    → update_range start len value s
      ≡ write_slots (start / s.map.unit_bytes) (div_ceil (start + len) s.map.unit_bytes) value s
unfolding update_range
update_range-eq start len value s w pos within =
    rw (slots_for_range-eq s.map start len w pos within, update_range)
      (let ne = div_ceil-above start (start + len) s.map.unit_bytes w.unit_pos (omega arith) in
        ground arith)

pub update_range-Wrote :
    (start len value : ℕ) (s : MapState)
    → IsWellFormed s.map
    → 0 < len
    → start + len ≤ s.map.blob_size
    → Wrote s
        (start / s.map.unit_bytes)
        (div_ceil (start + len) s.map.unit_bytes)
        value
        (update_range start len value s).0
        (update_range start len value s).1
update_range-Wrote start len value s w pos within =
    rw (update_range-eq start len value s w pos within) (
      write_slots-Wrote (start / s.map.unit_bytes) (div_ceil (start + len) s.map.unit_bytes) value
        s)

-- Filling slots within the map keeps it well-formed and changes just the bytes of those slots.
pub filled-IsWellFormed :
    (m : RangeMap) (a b value : ℕ)
    → a ≤ b
    → b ≤ m.slot_count
    → IsWellFormed m
    → IsWellFormed (filled m a b value)
filled-IsWellFormed m a b value h l w = record {
  unit_pos = w.unit_pos;
  fits = w.fits;
  counted = w.counted;
  sized = length-fill a b value m.slots h (omega (arith, w.sized)) ∙ w.sized;
}

pub get_or-filled :
    (m : RangeMap) (a b value slot : ℕ)
    → a ≤ b
    → b ≤ m.slot_count
    → IsWellFormed m
    → get_or (filled m a b value).slots slot 0
      ≡ (if leb a slot && ltb slot b then value else get_or m.slots slot 0)
get_or-filled m a b value slot h l w = get_or-fill a b value m.slots slot h (omega (arith, w.sized))

-- No other file than the map's is written.
pub files_after-other :
    (s : MapState) (a : ℕ) (bytes : List ℕ) (p : Text)
    → text_eq s.map.file p ≡ false
    → files_after s a bytes p ≡ s.disk.files p
files_after-other s a bytes p h = rw h
