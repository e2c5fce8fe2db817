-- ===== src/RangeMap/Presence.antt =====
-- `range_is_present` of src/range_map.rs. `lseek` with SEEK_DATA and SEEK_HOLE is the system's, so
-- it is a parameter; what the manual says of it is a record of hypotheses.
use lazyd.Base.{
  ℕ, ◌+◌, ◌≤◌, ◌<◌, ◌≡◌, refl, ◌⊎◌, inl, inr, Bool, true, false, none, some, arith, leb, ltb, ◌==◌,
  if◌then◌else◌, checked_add, text, Text, u64_end, Bool-cases, leb→le, ltb→lt, zero, suc,
}
use lazyd.Errors.{IoError, bad_request, io, Result, ok, err}
use lazyd.Disk.{Disk}

-- The return of `lseek`: an offset, or -1 with the error.
pub data Seek : Type 0 where
  found : ℕ → Seek
  failed : IoError → Seek

-- `lseek(fd, offset, SEEK_DATA)` and `lseek(fd, offset, SEEK_HOLE)` on the file of a path. The
-- offset is the bit pattern that the cast to `off_t` keeps.
pub record Lseek : Type 0 where
  pub seek_data : Disk → Text → ℕ → Seek
  pub seek_hole : Disk → Text → ℕ → Seek

-- ENXIO and EINVAL
abbrev is_no_data : IoError → Bool
is_no_data e = elim e.raw_os_error [
  | none ↦ false
  | some code ↦ if code == 6 then true else code == 22
]

-- `match err.raw_os_error()`
abbrev seek_error : IoError → Result Bool
seek_error e = if is_no_data e then ok false else err (io e)

module _ (lseek : Lseek) (d : Disk) (layer : Text) where
  -- What follows the first seek, on a range that is not empty and ends at `end`.
  hole_behind : ℕ → ℕ → Result Bool
  hole_behind offset end = elim (lseek.seek_hole d layer offset) [
    | failed e ↦ seek_error e
    | found hole ↦ ok (leb end hole)
  ]

  data_up_to : ℕ → ℕ → Result Bool
  unfolding hole_behind
  data_up_to offset end = elim (lseek.seek_data d layer offset) [
    | failed e ↦ seek_error e
    | found start ↦ if ltb offset start then ok false else hole_behind offset end
  ]

  unfoldable pub range_is_present : ℕ → ℕ → Result Bool
  unfolding data_up_to
  range_is_present offset len = if len == 0 then ok true else elim (checked_add offset len) [
    | none ↦ err (bad_request (text "range overflows u64"))
    | some end ↦ data_up_to offset end
  ]

  -- What lseek(2) says of a file whose bytes at `IsData` are data and whose other bytes are holes:
  -- SEEK_DATA gives the next byte of data, and fails with ENXIO where there is none; SEEK_HOLE
  -- gives the next byte of a hole, and the end of the file counts as one, so that it fails with
  -- ENXIO only behind the end.
  pub record SeekLaws (IsData : ℕ → Type 0) : Type 0 where
    pub data_here :
        (o n : ℕ)
        → lseek.seek_data d layer o ≡ found n
        → (o ≤ n) × IsData n × ((i : ℕ) → o ≤ i → i < n → ¬ IsData i)
    pub data_none :
        (o : ℕ) (e : IoError)
        → lseek.seek_data d layer o ≡ failed e
        → is_no_data e ≡ true
        → ¬ IsData o
    pub hole_here :
        (o n : ℕ)
        → lseek.seek_hole d layer o ≡ found n
        → (o ≤ n) × ¬ IsData n × ((i : ℕ) → o ≤ i → i < n → IsData i)
    pub hole_none :
        (o : ℕ) (e : IoError)
        → lseek.seek_hole d layer o ≡ failed e
        → is_no_data e ≡ true
        → ¬ IsData o

  Seek-cases : (s : Seek) → ((n : ℕ) × (s ≡ found n)) ⊎ ((e : IoError) × (s ≡ failed e))
  Seek-cases (found n) = inl (n, refl)
  Seek-cases (failed e) = inr (e, refl)

  -- The answer is yes when each byte of the range is data, no when one is not, or the error of a
  -- seek.
  abbrev pub Answers : (ℕ → Type 0) → ℕ → ℕ → Result Bool → Type 0
  Answers IsData offset len r =
      ((r ≡ ok true) × ((i : ℕ) → offset ≤ i → i < offset + len → IsData i))
      ⊎ ((r ≡ ok false) × ((i : ℕ) × (offset ≤ i) × (i < offset + len) × ¬ IsData i))
      ⊎ ((e : IoError) × (r ≡ err (io e)) × (is_no_data e ≡ false))

  hole_behind-Answers :
      {IsData : ℕ → Type 0}
      → SeekLaws IsData
      → (offset len : ℕ) → 0 < len
      → Answers IsData offset len (hole_behind offset (offset + len))
  unfolding hole_behind
  hole_behind-Answers {IsData} laws offset len pos =
      elim (Seek-cases (lseek.seek_hole d layer offset)) [
        | inl (n, q) ↦ elim (Bool-cases (leb (offset + len) n)) [
          | inl h ↦ inl (
            rw (q, hole_behind, h),
            λ i lo hi.
                (laws.hole_here offset n q).2 i lo (omega (arith, leb→le (offset + len) n h)),
          )
          | inr h ↦ inr (
              inl (
                rw (q, hole_behind, h),
                (n, (laws.hole_here offset n q).0, ground arith, (laws.hole_here offset n q).1),
              ))
        ]
        | inr (e, q) ↦ elim (Bool-cases (is_no_data e)) [
          | inl h ↦ inr (
              inl (
                rw (q, hole_behind, h),
                (offset, omega arith, omega arith, laws.hole_none offset e q h),
              ))
          | inr h ↦ inr (inr (e, rw (q, hole_behind, h), h))
        ]
      ]

  data_up_to-Answers :
      {IsData : ℕ → Type 0}
      → SeekLaws IsData
      → (offset len : ℕ) → 0 < len
      → Answers IsData offset len (data_up_to offset (offset + len))
  unfolding data_up_to
  data_up_to-Answers {IsData} laws offset len pos =
      elim (Seek-cases (lseek.seek_data d layer offset)) [
        | inl (n, q) ↦ elim (Bool-cases (ltb offset n)) [
          | inl h ↦ inr (
              inl (
                rw (q, data_up_to, h),
                (
                  offset,
                  omega arith,
                  omega arith,
                  (laws.data_here offset n q).2 offset (omega arith) (ltb→lt offset n h),
                ),
              ))
          | inr h ↦ rw (q, data_up_to, h) (hole_behind-Answers laws offset len pos)
        ]
        | inr (e, q) ↦ elim (Bool-cases (is_no_data e)) [
          | inl h ↦ inr (
              inl (
                rw (q, data_up_to, h),
                (offset, omega arith, omega arith, laws.data_none offset e q h),
              ))
          | inr h ↦ inr (inr (e, rw (q, data_up_to, h), h))
        ]
      ]

  range_is_present-eq :
      (offset len : ℕ)
      → 0 < len
      → offset + len < u64_end
      → range_is_present offset len ≡ data_up_to offset (offset + len)
  unfolding range_is_present
  range_is_present-eq offset len pos fits = ground arith

  -- With lseek as in its manual, range_is_present of a range that does not overflow says yes when
  -- each of its bytes is data and no when one is not, and fails only with the error of a seek that
  -- is neither ENXIO nor EINVAL.
  pub range_is_present-Answers :
      {IsData : ℕ → Type 0}
      → SeekLaws IsData
      → (offset len : ℕ) → offset + len < u64_end
      → Answers IsData offset len (range_is_present offset len)
  unfolding range_is_present
  range_is_present-Answers {IsData} laws offset zero fits =
      inl (refl, λ i lo hi. absurd (omega arith))
  range_is_present-Answers {IsData} laws offset (suc n) fits =
      rw (range_is_present-eq offset (suc n) (omega arith) fits)
        (data_up_to-Answers laws offset (suc n) (omega arith))
