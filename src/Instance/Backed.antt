-- ===== src/Instance/Backed.antt =====
-- The safety of the cache: a unit that the bitmap shows as ready, in memory or in its file, holds
-- the bytes of the blob in the cache file. `Backed` is that invariant, on the parts of an instance
-- that it is about.
use lazyd.Base.{
  ℕ, ◌+◌, ◌-◌, ◌*◌, ◌/◌, ◌%◌, ◌≤◌, ◌<◌, ◌≡◌, ap, sym, subst, ◌∙◌, ◌⊎◌, inl, inr, Text, Bytes,
  text_eq, Option, true, false, ◌&&◌, some, List, length, get_or, take, replicate, arith,
  length-replicate, length-take, div_ceil, ltb, leb, if◌then◌else◌, Bool-cases, ltb→lt, ltb→le,
}
use lazyd.Errors.{Result, Error, ok, err}
use lazyd.Disk.{Disk, File, splice, file_at}
use lazyd.Disk.Laws.{byte_of-splice, put_file-same}
use lazyd.RangeMap.{RangeMap, MapState, is_set, header_size, set_range_ready}
use lazyd.RangeMap.Slots.{IsWellFormed, Touches, Touches-iff}
use lazyd.RangeMap.Update.{
  IsReady, files_after, update_range-Wrote, in_range-Touches, files_after-other,
}
use lazyd.RangeMap.Effects.{range_filled, range_filled-IsWellFormed, IsReady-set}
use lazyd.Instance.Write.{byte_at, Written}

-- The blob's bytes are `blob`; the cache file is at `target`.
pub record Backed (blob : ℕ → ℕ) (target : Text) (m : RangeMap) (d : Disk) : Type 0 where
  pub map : IsWellFormed m
  pub apart : (text_eq m.file target ≡ false) × (text_eq target m.file ≡ false)
  pub memory : (i : ℕ) → i < m.blob_size → IsReady m i → byte_at d target i ≡ blob i
  pub stored :
      (i : ℕ)
      → i < m.blob_size
      → is_set (byte_at d m.file (header_size + i / m.unit_bytes)) ≡ true
      → byte_at d target i ≡ blob i

-- The bytes from `start` up to `end` are those of the blob.
abbrev pub Holds : (ℕ → ℕ) → Text → Disk → ℕ → ℕ → Type 0
Holds blob target d start end = (i : ℕ) → start ≤ i → i < end → byte_at d target i ≡ blob i

pub byte_at-same :
    (d e : Disk) (p : Text) (i : ℕ) → e.files p ≡ d.files p → byte_at e p i ≡ byte_at d p i
unfolding byte_at
byte_at-same d e p i q = rw q

module _ (blob : ℕ → ℕ) (target : Text) (m : RangeMap) (d : Disk) (b : Backed blob target m d) where
  -- A write of the blob's own bytes to the cache file, whole or not, keeps what is backed.
  module _ (bytes : Bytes) (offset : ℕ) (r : Result (Unit {0})) (e : Disk)
      (w : Written target bytes offset d r e)
      (genuine : (k : ℕ) → k < length bytes → get_or bytes k 0 ≡ blob (offset + k)) where
    rewritten :
        (i : ℕ)
        → byte_at d target i ≡ blob i
        → offset ≤ i
        → i < offset + length bytes
        → byte_at e target i ≡ blob i
    rewritten i good lo hi =
        let k : ℕ = i - offset in
        let q : offset + k ≡ i = omega arith in
        ap (byte_at e target) (sym q) ∙ elim (w.inside k (omega arith)) [
          | inl new ↦ new ∙ genuine k (omega arith) ∙ ap blob q
          | inr old ↦ old ∙ ap (byte_at d target) q ∙ good
        ]

    pub good_stays : (i : ℕ) → byte_at d target i ≡ blob i → byte_at e target i ≡ blob i
    good_stays i good = elim (Bool-cases (ltb i offset)) [
      | inl h ↦ w.outside i (inl (ltb→lt i offset h)) ∙ good
      | inr h ↦ elim (Bool-cases (ltb i (offset + length bytes))) [
        | inr k ↦ w.outside i (inr (ltb→le i (offset + length bytes) k)) ∙ good
        | inl k ↦ rewritten i good (ltb→le i offset h) (ltb→lt i (offset + length bytes) k)
      ]
    ]

    pub Written-Backed : Backed blob target m e
    Written-Backed = record {
      map = b.map;
      apart = b.apart;
      memory = λ i lt q. good_stays i (b.memory i lt q);
      stored = λ i lt q. good_stays i (
          b.stored i lt (
            ap is_set (
              sym (
                byte_at-same d e m.file (header_size + i / m.unit_bytes)
                  (w.others m.file b.apart.1)))
            ∙ q));
    }

    pub Written-Holds : r ≡ ok tt → Holds blob target e offset (offset + length bytes)
    Written-Holds good i lo hi =
        let k : ℕ = i - offset in
        let q : offset + k ≡ i = omega arith in
        ap (byte_at e target) (sym q)
        ∙ w.complete good k (omega arith)
        ∙ genuine k (omega arith)
        ∙ ap blob q

touched_start : (u start i : ℕ) → 0 < u → start % u ≡ 0 → start < (i / u + 1) * u → start ≤ i
touched_start u start i pos whole above = grind arith

touched_end : (u end i : ℕ) → 0 < u → end % u ≡ 0 → i / u * u < end → i < end
touched_end u end i pos whole below = grind arith

-- A slot that shares a byte with a range of whole units has all of its bytes within the range.
pub touched_within :
    (u size start end i : ℕ)
    → 0 < u
    → start % u ≡ 0
    → (end % u ≡ 0) ⊎ (end ≡ size)
    → i < size
    → i / u * u < end
    → start < (i / u + 1) * u
    → (start ≤ i) × (i < end)
touched_within u size start end i pos whole stop lt below above = (
  touched_start u start i pos whole above,
  elim stop [ inl h ↦ touched_end u end i pos h below | inr h ↦ omega arith ],
)

written_if :
    (a b n k x v g : ℕ)
    → n ≤ b - a
    → x ≡ (
        if leb (header_size + a) (header_size + k) && ltb (header_size + k) (header_size + a + n)
        then v
        else g)
    → is_set x ≡ true
    → ((a ≤ k) × (k < b)) ⊎ (is_set g ≡ true)
written_if a b n k x v g short e h = ground arith

-- Marking the slots of a range of whole units whose bytes are in the file, whether or not the write
-- of the bitmap succeeds.
module _ (blob : ℕ → ℕ) (target : Text) (m : RangeMap) (d : Disk) (b : Backed blob target m d)
    (start len : ℕ) (pos : 0 < len) (within : start + len ≤ m.blob_size)
    (whole : start % m.unit_bytes ≡ 0)
    (stop : ((start + len) % m.unit_bytes ≡ 0) ⊎ (start + len ≡ m.blob_size))
    (held : Holds blob target d start (start + len)) where
  abbrev before : MapState
  before = record { map = m; disk = d }

  pub touched_held :
      (i : ℕ)
      → i < m.blob_size
      → Touches m start (start + len) (i / m.unit_bytes)
      → byte_at d target i ≡ blob i
  touched_held i lt t =
      let q =
        touched_within m.unit_bytes m.blob_size start (start + len) i b.map.unit_pos whole stop lt
          t.0 t.1 in
      held i q.0 q.1

  module _ (e : Disk) (bytes : List ℕ)
      (short : length bytes ≤ div_ceil (start + len) m.unit_bytes - start / m.unit_bytes)
      (q : e.files ≡ files_after before (start / m.unit_bytes) bytes) where
    pub target_same : (i : ℕ) → byte_at e target i ≡ byte_at d target i
    target_same i = byte_at-same d e target i (
        ap (λ (g : Text → Option File). g target) q
        ∙ files_after-other before (start / m.unit_bytes) bytes target b.apart.0)

    slot_byte :
        (k : ℕ)
        → byte_at e m.file (header_size + k) ≡ (
            if leb (header_size + start / m.unit_bytes) (header_size + k)
              && ltb (header_size + k) (header_size + start / m.unit_bytes + length bytes)
            then get_or bytes (header_size + k - (header_size + start / m.unit_bytes)) 0
            else byte_at d m.file (header_size + k))
    unfolding byte_at
    slot_byte k =
        let here : e.files m.file
            ≡ some (splice (file_at d m.file) (header_size + start / m.unit_bytes) bytes) =
          ap (λ (g : Text → Option File). g m.file) q ∙ put_file-same d.files m.file _ in
        rw here (
          byte_of-splice (file_at d m.file) (header_size + start / m.unit_bytes) bytes
            (header_size + k))

    slot_set :
        (k : ℕ)
        → is_set (byte_at e m.file (header_size + k)) ≡ true
        → ((start / m.unit_bytes ≤ k) × (k < div_ceil (start + len) m.unit_bytes))
          ⊎ (is_set (byte_at d m.file (header_size + k)) ≡ true)
    slot_set k h =
        written_if (start / m.unit_bytes) (div_ceil (start + len) m.unit_bytes) (length bytes) k _ _
          _ short (slot_byte k) h

    stored_still :
        (i : ℕ)
        → i < m.blob_size
        → is_set (byte_at e m.file (header_size + i / m.unit_bytes)) ≡ true
        → byte_at e target i ≡ blob i
    stored_still i lt h = target_same i ∙ elim (slot_set (i / m.unit_bytes) h) [
      | inl t ↦
          touched_held i lt
            ((Touches-iff m start (start + len) (i / m.unit_bytes) b.map.unit_pos).0 t)
      | inr old ↦ b.stored i lt old
    ]

    pub failed-Backed : Backed blob target m e
    failed-Backed = record {
      map = b.map;
      apart = b.apart;
      memory = λ i lt h. target_same i ∙ b.memory i lt h;
      stored = stored_still;
    }

    pub marked-Backed : Backed blob target (range_filled m start len b.map pos within 1) e
    marked-Backed = record {
      map = range_filled-IsWellFormed m start len b.map pos within 1;
      apart = b.apart;
      memory = λ i lt h. target_same i ∙ elim ((IsReady-set m start len b.map pos within i).0 h) [
        | inl old ↦ b.memory i lt old
        | inr t ↦ touched_held i lt t
      ];
      stored = stored_still;
    }

  short_take : (n a c v : ℕ) → length (take n (replicate (c - a) v)) ≤ c - a
  short_take n a c v =
      omega (arith, length-take n (replicate (c - a) v), length-replicate (c - a) v)

  short_whole : (n v : ℕ) → length (replicate n v) ≤ n
  short_whole n v = omega (arith, length-replicate n v)

  -- What `set_range_ready` leaves of the map and the disk.
  pub record Marked (r : Result (Unit {0})) (t : MapState) : Type 0 where
    pub backed : Backed blob target t.map t.disk
    pub target_kept : (i : ℕ) → byte_at t.disk target i ≡ byte_at d target i
    pub ready : r ≡ ok tt → (i : ℕ) → start ≤ i → i < start + len → IsReady t.map i
    pub unmarked : (e : Error) → r ≡ err e → t.map ≡ m
    pub shape : (t.map.unit_bytes ≡ m.unit_bytes) × (t.map.blob_size ≡ m.blob_size)

  newly-IsReady :
      (i : ℕ)
      → start ≤ i
      → i < start + len
      → IsReady (range_filled m start len b.map pos within 1) i
  newly-IsReady i lo hi =
      (IsReady-set m start len b.map pos within i).1
        (inr (in_range-Touches m start (start + len) i b.map.unit_pos lo hi))

  pub set_range_ready-Marked :
      Marked (set_range_ready start len before).0 (set_range_ready start len before).1
  unfolding set_range_ready
  set_range_ready-Marked = elim (update_range-Wrote start len 1 before b.map pos within) [
    | inl (q, e, f) ↦
        let short = short_whole (div_ceil (start + len) m.unit_bytes - start / m.unit_bytes) 1 in
        record {
          backed =
              subst (λ k. Backed blob target k (set_range_ready start len before).1.disk) (sym e)
                (marked-Backed (set_range_ready start len before).1.disk
                  (replicate (div_ceil (start + len) m.unit_bytes - start / m.unit_bytes) 1) short
                  f);
          target_kept = target_same _ _ short f;
          ready = λ _ i lo hi. subst (λ k. IsReady k i) (sym e) (newly-IsReady i lo hi);
          unmarked = λ x z. cc;
          shape = (ap (λ k. k.unit_bytes) e, ap (λ k. k.blob_size) e);
        }
    | inr (x, n, q, e, f) ↦
        let short = short_take n (start / m.unit_bytes) (div_ceil (start + len) m.unit_bytes) 1 in
        record {
          backed =
              subst (λ k. Backed blob target k (set_range_ready start len before).1.disk) (sym e)
                (failed-Backed (set_range_ready start len before).1.disk _ short f);
          target_kept = target_same _ _ short f;
          ready = λ z. cc;
          unmarked = λ x' z. e;
          shape = (ap (λ k. k.unit_bytes) e, ap (λ k. k.blob_size) e);
        }
  ]
