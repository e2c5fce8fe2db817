-- ===== src/RangeMap/Open/Opened.antt =====
-- `RangeMap::open_or_create` from end to end, when it succeeds.
use mathlib.Core.Path.{subst₂}
use lazyd.Base.{ℕ, ◌≡◌, refl, ap, ◌∙◌, Text, Bool, List, [], length, arith, length-replicate}
use lazyd.Errors.{Result, ok, err}
use lazyd.Exec.{Exec, bind-parts, gets, lift, pure, ◌>>=◌, ◌>>◌}
use lazyd.Disk.{Disk, exists, open_create}
use lazyd.Disk.Laws.Files.{open_create-files}
use lazyd.RangeMap.{
  BlobDescriptor, RangeMap, OpenedRangeMap, bitmap_path, validate_fetch_unit_bytes, slot_count,
}
use lazyd.RangeMap.Slots.{IsWellFormed}
use lazyd.RangeMap.Open.{HeaderCodec, load_slots, expected_header, open_or_create}
use lazyd.RangeMap.Open.Fresh.{Files, Loaded, found, fresh}
use lazyd.RangeMap.Open.Load.{Loaded-created, load_slots-Loaded}

-- A map that was opened over the bitmap file of `target`.
pub record Opened (json : HeaderCodec) (target : Text) (blob : BlobDescriptor) (unit_bytes : ℕ)
    (files : Files) (m : RangeMap) (after : Files) : Type 0 where
  pub wf : IsWellFormed m
  pub file : m.file ≡ bitmap_path target
  pub unit : m.unit_bytes ≡ unit_bytes
  pub size : m.blob_size ≡ blob.size
  pub loaded :
      Loaded json
        (bitmap_path target)
        (expected_header json blob unit_bytes m.slot_count)
        files
        m.slots
        after

module _ (json : HeaderCodec) (target : Text) (blob : BlobDescriptor) (unit_bytes : ℕ) where
  abbrev path : Text
  path = bitmap_path target

  abbrev map_of : ℕ → List ℕ → RangeMap
  map_of count slots = record {
    file = path;
    unit_bytes = unit_bytes;
    blob_size = blob.size;
    slot_count = count;
    slots = slots;
  }

  abbrev behind_load : ℕ → List ℕ × Bool → Exec Disk OpenedRangeMap
  behind_load count (slots, needs_recovery) =
      pure (record { range_map = map_of count slots; needs_recovery = needs_recovery })

  abbrev behind_create : Bool → ℕ → Exec Disk OpenedRangeMap
  behind_create existed count = do
    out ← load_slots json existed path (expected_header json blob unit_bytes count)
    behind_load count out

  abbrev behind_count : Bool → ℕ → Exec Disk OpenedRangeMap
  behind_count existed count = do open_create path; behind_create existed count

  abbrev behind_exists : Bool → Exec Disk OpenedRangeMap
  behind_exists existed = do
    count ← lift (slot_count blob.size unit_bytes)
    behind_count existed count

  slot_count-IsWellFormed :
      (count : ℕ) (slots : List ℕ)
      → validate_fetch_unit_bytes unit_bytes ≡ ok tt
      → slot_count blob.size unit_bytes ≡ ok count
      → length slots ≡ count
      → IsWellFormed (map_of count slots)
  unfolding validate_fetch_unit_bytes slot_count
  slot_count-IsWellFormed count slots v q sized = record {
    unit_pos = ground arith;
    fits = ground arith;
    counted = ground arith;
    sized = sized;
  }

  Loaded-sized :
      (count : ℕ) (files after : Files) (slots : List ℕ)
      → Loaded json path (expected_header json blob unit_bytes count) files slots after
      → length slots ≡ count
  unfolding expected_header
  Loaded-sized count files after slots (found h reads fits sized bytes kept_bytes kept) = sized
  Loaded-sized count files after slots (fresh empty zeros kept) =
      ap length empty ∙ length-replicate {A = ℕ} count 0

  pub open_or_create-Opened :
      (d e : Disk) (o : OpenedRangeMap)
      → open_or_create json target blob unit_bytes d ≡ (ok o, e)
      → Opened json target blob unit_bytes d.files o.range_map e.files
  unfolding open_or_create
  open_or_create-Opened d e o h =
      let (_, valid, h1) =
        bind-parts (lift (validate_fetch_unit_bytes unit_bytes))
          (λ _. gets (exists path) >>= behind_exists) d o e h in
      let (count, counted, h2) =
        bind-parts (lift (slot_count blob.size unit_bytes)) (behind_count (exists path d)) d o e
          h1 in
      let (_, made, h3) =
        bind-parts (open_create path) (λ _. behind_create (exists path d) count) d o e h2 in
      let d1 : Disk = (open_create path d).1 in
      let (out, read, h4) =
        bind-parts
          (load_slots json (exists path d) path (expected_header json blob unit_bytes count))
          (behind_load count) d1 o e h3 in
      let value : map_of count out.0 ≡ o.range_map =
        ap
          (λ (x : Result OpenedRangeMap × Disk). elim x.0 [
            | ok p ↦ p.range_map
            | err _ ↦ map_of 0 []
          ])
          h4 in
      let disk : (load_slots json (exists path d) path (expected_header json blob unit_bytes count)
            d1).1
          ≡ e =
        ap (λ x. x.1) h4 in
      let l =
        Loaded-created json path (expected_header json blob unit_bytes count) out.0 d d1.files _
          (open_create-files path d _ made)
          (load_slots-Loaded json path (expected_header json blob unit_bytes count) (exists path d)
            d1 _ out
            (ap
              (λ r. (
                r,
                (load_slots json (exists path d) path (expected_header json blob unit_bytes count)
                    d1).1,
              ))
              read)) in
      let sized = Loaded-sized count d.files _ out.0 l in
      subst₂ (λ m x. Opened json target blob unit_bytes d.files m x.files) value disk
        (record {
          wf = slot_count-IsWellFormed count out.0 valid counted sized;
          file = refl;
          unit = refl;
          size = refl;
          loaded = l;
        })
