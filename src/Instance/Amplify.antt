-- ===== src/Instance/Amplify.antt =====
-- `Instance::amplify_to_fetch_unit`: the smallest range of whole units that holds the request.
use lazyd.Base.{
  ℕ, ◌+◌, ◌-◌, ◌*◌, ◌/◌, ◌%◌, ◌≤◌, ◌<◌, ◌≡◌, ◌⊎◌, inl, inr, arith, div_ceil, div_ceil_upper,
  div_ceil_lower, min, ltb, ltb→lt, ltb→le, Bool-cases,
}
use lazyd.Errors.{ok}
use lazyd.RangeMap.Slots.{IsWellFormed}
use lazyd.Instance.{Instance, Range, amplify_to_fetch_unit}

-- The configuration and the bitmap agree on the unit and on the size of the blob.
pub record IsConsistent (i : Instance) : Type 0 where
  pub map : IsWellFormed i.range_map
  pub unit : i.config.fetch.unit_bytes ≡ i.range_map.unit_bytes
  pub size : i.config.blob.size ≡ i.range_map.blob_size

-- A range of whole units of a blob; the last unit may be cut by the end of the blob.
pub record IsAligned (unit size : ℕ) (r : Range) : Type 0 where
  pub start : r.offset % unit ≡ 0
  pub stop : ((r.offset + r.len) % unit ≡ 0) ⊎ (r.offset + r.len ≡ size)
  pub within : r.offset + r.len ≤ size
  pub some_bytes : 0 < r.len

-- What `amplify_to_fetch_unit` gives for the request: whole units that hold it, and no unit more.
pub record Amplified (unit size offset len : ℕ) (r : Range) : Type 0 where
  pub aligned : IsAligned unit size r
  pub holds : (r.offset ≤ offset) × (offset + len ≤ r.offset + r.len)
  pub least : (offset < r.offset + unit) × (r.offset + r.len < offset + len + unit)

abbrev units : ℕ → ℕ → ℕ → ℕ → Range
units unit size offset len = record {
  offset = offset / unit * unit;
  len = min (div_ceil (offset + len) unit * unit) size - offset / unit * unit;
}

multiple_mod : (a u : ℕ) → 0 < u → a * u % u ≡ 0
multiple_mod a u pos = grind arith

cut_multiple : (a u size : ℕ) → 0 < u → (min (a * u) size % u ≡ 0) ⊎ (min (a * u) size ≡ size)
cut_multiple a u size pos = elim (Bool-cases (ltb (a * u) size)) [
  | inl h ↦
      let e : min (a * u) size ≡ a * u = omega (arith, ltb→lt (a * u) size h) in
      inl (rw e (multiple_mod a u pos))
  | inr h ↦ inr (omega (arith, ltb→le (a * u) size h))
]

units-Amplified :
    (unit size offset len : ℕ)
    → 0 < unit
    → 0 < len
    → offset + len ≤ size
    → Amplified unit size offset len (units unit size offset len)
units-Amplified unit size offset len pos some_len within =
    let up = div_ceil_upper (offset + len) unit pos in
    let down = div_ceil_lower (offset + len) unit pos in
    let low : offset / unit * unit ≤ offset = grind arith in
    let high : offset < offset / unit * unit + unit = grind arith in
    let e : offset / unit * unit
          + (min (div_ceil (offset + len) unit * unit) size - offset / unit * unit)
        ≡ min (div_ceil (offset + len) unit * unit) size =
      omega arith in
    record {
      aligned = record {
        start = multiple_mod (offset / unit) unit pos;
        stop = rw e (cut_multiple (div_ceil (offset + len) unit) unit size pos);
        within = omega arith;
        some_bytes = omega arith;
      };
      holds = omega arith;
      least = omega arith;
    }

amplify-eq :
    (i : Instance) (offset len : ℕ)
    → IsConsistent i
    → 0 < len
    → offset + len ≤ i.config.blob.size
    → amplify_to_fetch_unit i offset len
      ≡ ok (units i.config.fetch.unit_bytes i.config.blob.size offset len)
unfolding amplify_to_fetch_unit
amplify-eq i offset len c some_len within =
    let unit : ℕ = i.config.fetch.unit_bytes in
    let pos : 0 < unit = omega (arith, c.map.unit_pos, c.unit) in
    let low : offset / unit * unit ≤ offset = grind arith in
    ground (arith, c.map.fits, c.unit, c.size, div_ceil_lower (offset + len) unit pos, low)

-- For a request within the blob that is not empty, where configuration and bitmap agree,
-- amplify_to_fetch_unit gives whole fetch units, the last cut at most by the end of the blob; they
-- hold the request, lie within the blob, and no unit more is taken at either end.
pub amplify_to_fetch_unit_lem :
    (i : Instance) (offset len : ℕ)
    → IsConsistent i
    → 0 < len
    → offset + len ≤ i.config.blob.size
    → (r : Range) × (amplify_to_fetch_unit i offset len ≡ ok r)
      × Amplified i.config.fetch.unit_bytes i.config.blob.size offset len r
amplify_to_fetch_unit_lem i offset len c some_len within =
    let unit : ℕ = i.config.fetch.unit_bytes in
    (
      units unit i.config.blob.size offset len,
      amplify-eq i offset len c some_len within,
      units-Amplified unit i.config.blob.size offset len (omega (arith, c.map.unit_pos, c.unit))
          some_len within,
    )
