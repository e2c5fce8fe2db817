-- ===== src/RangeMap/Slots.antt =====
-- The slots of a byte range, in a map that `open_or_create` has made.
use lazyd.Base.{
  ℕ, ◌+◌, ◌-◌, ◌*◌, ◌/◌, ◌≤◌, ◌<◌, ◌≡◌, ◌↔◌, length, arith, leb, div_ceil, div_ceil_upper,
  div_ceil_lower, text, u64_end, if◌then◌else◌, min,
}
use lazyd.Errors.{bad_request, ok, err}
use lazyd.RangeMap.{RangeMap, slots_for_range, slot_range}

pub div-le_iff : (a u k : ℕ) → 0 < u → (a / u ≤ k) ↔ (a < (k + 1) * u)
div-le_iff a u k pos = (λ h. grind arith, λ h. grind arith)

lt_of_mul_lt : (a b u : ℕ) → a * u < b * u → a < b
lt_of_mul_lt a b u h = grind arith

pub lt-div_ceil_iff : (e u k : ℕ) → 0 < u → (k < div_ceil e u) ↔ (k * u < e)
lt-div_ceil_iff e u k pos = (
  λ h. grind (arith, div_ceil_lower e u pos),
  λ h. lt_of_mul_lt k (div_ceil e u) u (omega (arith, div_ceil_upper e u pos)),
)

-- What `open_or_create` leaves: the unit passed its validation, and the slots cover the blob.
pub record IsWellFormed (m : RangeMap) : Type 0 where
  pub unit_pos : 0 < m.unit_bytes
  pub fits : m.blob_size + (m.unit_bytes - 1) < u64_end
  pub counted : m.slot_count ≡ (m.blob_size + (m.unit_bytes - 1)) / m.unit_bytes
  pub sized : length m.slots ≡ m.slot_count

-- The slot shares a byte with the range from `start` up to `end`.
abbrev pub Touches : RangeMap → ℕ → ℕ → ℕ → Type 0
Touches m start end slot = (slot * m.unit_bytes < end) × (start < (slot + 1) * m.unit_bytes)

pub div_ceil-eq : (e u : ℕ) → 0 < u → div_ceil e u ≡ (e + (u - 1)) / u
div_ceil-eq e u pos = grind (arith, div_ceil_lower e u pos, div_ceil_upper e u pos)

div_mono : (a b u : ℕ) → 0 < u → a ≤ b → a / u ≤ b / u
div_mono a b u pos h = grind arith

pub slot_end-le :
    (m : RangeMap) (end : ℕ)
    → IsWellFormed m
    → end ≤ m.blob_size
    → div_ceil end m.unit_bytes ≤ m.slot_count
slot_end-le m end w h =
    rw (div_ceil-eq end m.unit_bytes w.unit_pos, w.counted)
      (div_mono (end + (m.unit_bytes - 1)) (m.blob_size + (m.unit_bytes - 1)) m.unit_bytes
        w.unit_pos (omega arith))

pub slots_for_range-eq :
    (m : RangeMap) (start len : ℕ)
    → IsWellFormed m
    → 0 < len
    → start + len ≤ m.blob_size
    → slots_for_range m start len ≡ ok (start / m.unit_bytes, div_ceil (start + len) m.unit_bytes)
unfolding slots_for_range
slots_for_range-eq m start len w pos within =
    ground (arith, slot_end-le m (start + len) w within, w.fits)

pub div_ceil-above : (a e u : ℕ) → 0 < u → a < e → a / u < div_ceil e u
div_ceil-above a e u pos h = (lt-div_ceil_iff e u (a / u) pos).1 (grind arith)

pub Touches-iff :
    (m : RangeMap) (start end slot : ℕ)
    → 0 < m.unit_bytes
    → ((start / m.unit_bytes ≤ slot) × (slot < div_ceil end m.unit_bytes))
      ↔ Touches m start end slot
Touches-iff m start end slot pos = (
  λ h. (
    (lt-div_ceil_iff end m.unit_bytes slot pos).0 h.1,
    (div-le_iff start m.unit_bytes slot pos).0 h.0,
  ),
  λ h. (
    (div-le_iff start m.unit_bytes slot pos).1 h.1,
    (lt-div_ceil_iff end m.unit_bytes slot pos).1 h.0,
  ),
)

-- In a well-formed map, a range within the blob that is not empty is given exactly the slots that
-- share a byte with it, at least one, all of them slots of the map.
pub slots_for_range_exact :
    (m : RangeMap) (start len : ℕ)
    → IsWellFormed m
    → 0 < len
    → start + len ≤ m.blob_size
    → (a b : ℕ) × (slots_for_range m start len ≡ ok (a, b))
      × (a < b)
      × (b ≤ length m.slots)
      × ((slot : ℕ) → ((a ≤ slot) × (slot < b)) ↔ Touches m start (start + len) slot)
slots_for_range_exact m start len w pos within = (
  start / m.unit_bytes,
  div_ceil (start + len) m.unit_bytes,
  slots_for_range-eq m start len w pos within,
  (div_ceil-above start (start + len) m.unit_bytes w.unit_pos (omega arith)),
  rw w.sized (slot_end-le m (start + len) w within),
  λ slot. Touches-iff m start (start + len) slot w.unit_pos,
)

-- In a well-formed map, a range that is not empty and ends behind the blob is refused: as an
-- overflow where it overflows u64, else as exceeding the blob.
pub slots_for_range_refused :
    (m : RangeMap) (start len : ℕ)
    → IsWellFormed m
    → 0 < len
    → m.blob_size < start + len
    → slots_for_range m start len
      ≡ err (
          bad_request (
            if leb u64_end (start + len)
            then text "range overflows u64"
            else text "range exceeds blob size"))
unfolding slots_for_range
slots_for_range_refused m start len w pos over = ground arith

pub slot_inside :
    (m : RangeMap) (slot : ℕ)
    → IsWellFormed m
    → slot < m.slot_count
    → slot * m.unit_bytes < m.blob_size
slot_inside m slot w h =
    (lt-div_ceil_iff m.blob_size m.unit_bytes slot w.unit_pos).0
      (rw (div_ceil-eq m.blob_size m.unit_bytes w.unit_pos) (omega arith))

pub in_slot_iff : (i slot u : ℕ) → 0 < u → ((slot * u ≤ i) × (i < slot * u + u)) ↔ (i / u ≡ slot)
in_slot_iff i slot u pos = (λ h. grind arith, λ h. grind arith)

pub slot_range-eq :
    (m : RangeMap) (slot : ℕ)
    → IsWellFormed m
    → slot < m.slot_count
    → slot_range m slot
      ≡ ok (
        slot * m.unit_bytes,
        min (slot * m.unit_bytes + m.unit_bytes) m.blob_size - slot * m.unit_bytes,
      )
unfolding slot_range
slot_range-eq m slot w h = let inside = slot_inside m slot w h in ground arith

-- In a well-formed map, a slot of the map is a range of bytes within the blob that is not empty,
-- and holds exactly the bytes whose number, divided by the unit, is the slot.
pub slot_range_lem :
    (m : RangeMap) (slot : ℕ)
    → IsWellFormed m
    → slot < m.slot_count
    → (offset len : ℕ) × (slot_range m slot ≡ ok (offset, len))
      × (0 < len)
      × (offset + len ≤ m.blob_size)
      × ((i : ℕ)
          → i < m.blob_size
          → ((offset ≤ i) × (i < offset + len)) ↔ (i / m.unit_bytes ≡ slot))
slot_range_lem m slot w h =
    let inside = slot_inside m slot w h in
    let here = λ (i : ℕ). in_slot_iff i slot m.unit_bytes w.unit_pos in
    (
      slot * m.unit_bytes,
      min (slot * m.unit_bytes + m.unit_bytes) m.blob_size - slot * m.unit_bytes,
      slot_range-eq m slot w h,
      omega arith,
      omega arith,
      λ i lt. (λ q. (here i).0 (omega arith), λ q. omega (arith, (here i).1 q)),
    )
