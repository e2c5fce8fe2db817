-- ===== src/Registry/Reopen.antt =====
-- `Instance::open` over what an earlier run of the daemon has left on the disk.
pub mod Whole
pub mod Crash
pub mod Leaves
use lazyd.Base.{
  ℕ, ◌+◌, ◌-◌, ◌*◌, ◌/◌, ◌≤◌, ◌<◌, ◌≡◌, refl, ap, sym, subst, ◌∙◌, inl, inr, Text, text, text_eq,
  text_eq_of_ne, Bool, true, false, Option, List, ◌++◌, length, length-append, get_or, replicate,
  tabulate, if◌then◌else◌, arith, Bool-cases,
}
use lazyd.Errors.{Result, Error, ok, err}
use lazyd.Exec.{Exec, Result-cases, bind-parts, lift, pure, ◌>>=◌, ◌>>◌}
use lazyd.Disk.{Disk, File, byte_of, contents, open_existing}
use lazyd.Disk.Laws.Files.{open_existing-files}
use lazyd.RangeMap.{
  BlobDescriptor, RangeMap, OpenedRangeMap, MapState, is_set, header_size, bitmap_path,
  validate_fetch_unit_bytes,
}
use lazyd.RangeMap.Slots.{IsWellFormed, slot_end-le, div_ceil-above}
use lazyd.RangeMap.Update.{IsReady}
use lazyd.RangeMap.Open.{
  Header, header_eq, HeaderCodec, decode_header, expected_header, open_or_create,
}
use lazyd.RangeMap.Open.Fresh.{Files, byte_in, Loaded, found, fresh, get_or-replicate}
use lazyd.RangeMap.Open.Opened.{Opened, open_or_create-Opened}
use lazyd.RangeMap.Recovery.{recovery_reconcile}
use lazyd.Instance.{InstanceConfig, Instance, InstanceState}
use lazyd.Instance.Write.{byte_at}
use lazyd.Instance.Amplify.{IsConsistent}
use lazyd.Instance.Backed.{Backed}
use lazyd.Instance.Fetch.{Serves}
use lazyd.Instance.Reopen.Recovery.{Recovers, recovery_reconcile-Recovers}
use lazyd.Registry.{Setup, recover, new_instance, open_map, open_instance}

-- If the bitmap file has the header of this blob and this unit, then each slot that is set there
-- has the blob's bytes in the cache file. A run that was cut off at any point leaves this.
abbrev pub TellsTruth : HeaderCodec → (ℕ → ℕ) → InstanceConfig → Files → Type 0
TellsTruth json blob config files =
    (count : ℕ) (h : Header)
    → decode_header json
        (tabulate header_size 0 (contents (files (bitmap_path config.target_path))).byte)
      ≡ ok h
    → header_eq h (expected_header json config.blob config.fetch.unit_bytes count) ≡ true
    → (i : ℕ) → i < config.blob.size
    → is_set
        (byte_in files (bitmap_path config.target_path) (header_size + i / config.fetch.unit_bytes))
      ≡ true
    → byte_in files config.target_path i ≡ blob i

longer : (target : Text) → length target < length (bitmap_path target)
unfolding bitmap_path text
longer target = omega (arith, length-append target (text ".bitmap"))

bitmap_path-apart :
    (target : Text)
    → (text_eq (bitmap_path target) target ≡ false) × (text_eq target (bitmap_path target) ≡ false)
bitmap_path-apart target = (
  text_eq_of_ne (bitmap_path target) target
      (λ e. let z = ap length e in omega (arith, longer target)),
  text_eq_of_ne target (bitmap_path target)
      (λ e. let z = ap length e in omega (arith, longer target)),
)

module _ (json : HeaderCodec) (blob : ℕ → ℕ) (config : InstanceConfig) (files : Files)
    (truth : TellsTruth json blob config files) (m : RangeMap) (e : Disk) where
  abbrev target : Text
  target = config.target_path

  slot-lt : IsWellFormed m → (i : ℕ) → i < m.blob_size → i / m.unit_bytes < m.slot_count
  slot-lt w i lt = omega (
    arith,
    div_ceil-above i m.blob_size m.unit_bytes w.unit_pos lt,
    slot_end-le m m.blob_size w (omega arith),
  )

  -- The header and the slots of the file, where they were found.
  module _ (w : IsWellFormed m) (file : m.file ≡ bitmap_path target)
      (unit : m.unit_bytes ≡ config.fetch.unit_bytes) (size : m.blob_size ≡ config.blob.size)
      (kept : (q : Text) → text_eq (bitmap_path target) q ≡ false → e.files q ≡ files q) where
    target_same : (i : ℕ) → byte_at e target i ≡ byte_in files target i
    unfolding byte_at
    target_same i = ap (λ f. byte_of (contents f) i) (kept target (bitmap_path-apart target).0)

    apart : (text_eq m.file target ≡ false) × (text_eq target m.file ≡ false)
    apart =
        subst (λ p. (text_eq p target ≡ false) × (text_eq target p ≡ false)) (sym file)
          (bitmap_path-apart target)

    abbrev slot_byte : Files → ℕ → ℕ
    slot_byte g i = byte_in g (bitmap_path target) (header_size + i / m.unit_bytes)

    stored_byte :
        (i : ℕ)
        → is_set (byte_at e m.file (header_size + i / m.unit_bytes)) ≡ true
        → is_set (slot_byte e.files i) ≡ true
    unfolding byte_at
    stored_byte i h =
        subst (λ p. is_set (byte_in e.files p (header_size + i / m.unit_bytes)) ≡ true) file h

    found_true :
        (h : Header)
        → decode_header json (tabulate header_size 0 (contents (files (bitmap_path target))).byte)
          ≡ ok h
        → header_eq h (expected_header json config.blob config.fetch.unit_bytes m.slot_count) ≡ true
        → (i : ℕ) → i < m.blob_size
        → is_set (slot_byte files i) ≡ true
        → byte_at e target i ≡ blob i
    found_true h reads fits i lt q =
        target_same i
        ∙ truth m.slot_count h reads fits i (omega (arith, size)) (
            subst (λ u. is_set (byte_in files (bitmap_path target) (header_size + i / u)) ≡ true)
              unit q)

    Loaded-Backed :
        Loaded json
          (bitmap_path target)
          (expected_header json config.blob config.fetch.unit_bytes m.slot_count)
          files
          m.slots
          e.files
        → Backed blob target m e
    unfolding expected_header
    Loaded-Backed (found h reads fits sized bytes kept_bytes _) = record {
      map = w;
      apart = apart;
      memory = λ i lt ready.
          found_true h reads fits i lt
            (ap is_set (sym (bytes (i / m.unit_bytes) (slot-lt w i lt))) ∙ ready);
      stored = λ i lt set.
          found_true h reads fits i lt
            (ap is_set (sym (kept_bytes (header_size + i / m.unit_bytes))) ∙ stored_byte i set);
    }
    Loaded-Backed (fresh empty zero _) = record {
      map = w;
      apart = apart;
      memory = λ i lt ready.
          let k : ℕ = i / m.unit_bytes in
          let none_set : get_or m.slots k 0 ≡ 0 =
            ap (λ xs. get_or xs k 0) empty ∙ get_or-replicate m.slot_count k (slot-lt w i lt) in
          absurd (ground arith);
      stored = λ i lt set.
          let none_set = zero (i / m.unit_bytes) (slot-lt w i lt) in
          let z = stored_byte i set in absurd (ground arith);
    }

  pub Opened-Backed :
      Opened json target config.blob config.fetch.unit_bytes files m e.files
      → Backed blob target m e
  Opened-Backed o =
      Loaded-Backed o.wf o.file o.unit o.size
        (elim o.loaded [ found _ _ _ _ _ _ kept ↦ kept | fresh _ _ kept ↦ kept ]) o.loaded
