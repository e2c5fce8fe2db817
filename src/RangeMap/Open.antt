-- ===== src/RangeMap/Open.antt =====
-- The bitmap file of src/range_map.rs: its header, and `RangeMap::open_or_create`.
pub mod Codec
pub mod Fresh
mod Load
pub mod Opened
pub mod Stale
pub mod Leaves
use lazyd.Base.{
  ℕ, zero, suc, ◌+◌, ◌-◌, ◌<◌, ◌≡◌, ◌≢◌, Text, Bytes, text, text_eq, Bool, true, false, ◌&&◌, ◌||◌,
  Option, none, some, List, [], ◌∷◌, ◌++◌, length, take, replicate, ltb, ◌==◌, if◌then◌else◌,
}
use lazyd.Errors.{Error, bad_request, Result, ok, err, ok_or}
use lazyd.Exec.{Exec, pure, fail, lift, gets, when, caught, ◌>>=◌, ◌>>◌}
use lazyd.Disk.{Disk, exists, open_create, set_len, write_all_at, sync, read_exact_at}
use lazyd.RangeMap.{
  BlobDescriptor, RangeMap, OpenedRangeMap, bitmap_path, validate_fetch_unit_bytes, slot_count,
  header_size,
}

pub record Header : Type 0 where
  pub magic : Text
  pub version : ℕ
  pub unit_bytes : ℕ
  pub blob_digest : Text
  pub blob_size : ℕ
  pub slot_count : ℕ

abbrev pub magic : Text
magic = text "lazyd-range-map"

abbrev pub version : ℕ
version = 1

-- The derived `==` of `Header`.
unfoldable pub header_eq : Header → Header → Bool
header_eq a b =
    text_eq a.magic b.magic
    && (a.version == b.version
        && (a.unit_bytes == b.unit_bytes
            && (text_eq a.blob_digest b.blob_digest
                && (a.blob_size == b.blob_size && a.slot_count == b.slot_count))))

-- `serde_json::to_vec` and `serde_json::from_slice` at `Header`.
pub record HeaderCodec : Type 0 where
  pub to_vec : Header → Result Bytes
  pub from_slice : Bytes → Result Header

abbrev pub is_terminator : ℕ → Bool
is_terminator byte = byte == b'\n' || byte == 0

abbrev pub IsLine : Bytes → Type 0
IsLine [] = Unit {0}
IsLine (b ∷ bs) = (is_terminator b ≡ false) × IsLine bs

-- What the crate relies on: JSON on one line, which reads back as the header.
pub record CodecLaws (json : HeaderCodec) : Type 0 where
  pub reads_back : (h : Header) (b : Bytes) → json.to_vec h ≡ ok b → json.from_slice b ≡ ok h
  pub nonempty : (h : Header) (b : Bytes) → json.to_vec h ≡ ok b → b ≢ []
  pub one_line : (h : Header) (b : Bytes) → json.to_vec h ≡ ok b → IsLine b

-- `iter().position(…)`
unfoldable pub position : (ℕ → Bool) → Bytes → Option ℕ
position p [] = none
position p (b ∷ bs) =
    let rest = position p bs in
    if p b then some 0 else elim rest [ none ↦ none | some n ↦ some (suc n) ]

module _ (json : HeaderCodec) where
  unfoldable pub encode_header : Header → Result Bytes
  encode_header header = elim (json.to_vec header) [
    | err e ↦ err e
    | ok encoded ↦
        if ltb header_size (length encoded + 1)
        then err (bad_request (text "range map header too large"))
        else ok (encoded ++ b'\n' ∷ replicate (header_size - (length encoded + 1)) 0)
  ]

  -- `read_header` behind the read of the file's first bytes.
  unfoldable pub decode_header : Bytes → Result Header
  decode_header buf = elim (position is_terminator buf) [
    | none ↦ err (bad_request (text "range map header terminator missing"))
    | some end ↦
        if end == 0
        then err (bad_request (text "range map header is empty"))
        else json.from_slice (take end buf)
  ]

  unfoldable pub read_header : Text → Exec Disk Header
  unfolding decode_header
  read_header path = do buf ← read_exact_at path header_size 0; lift (decode_header buf)

  unfoldable pub read_slots : Text → ℕ → Exec Disk (List ℕ)
  read_slots path count = if count == 0 then pure [] else read_exact_at path count header_size

  -- The seek to the start is the offset of the write; the second write goes on behind the header.
  unfoldable pub initialize_file : Text → Header → Exec Disk Unit
  unfolding encode_header
  initialize_file path header = do
    set_len path (header_size + header.slot_count)
    encoded ← lift (encode_header header)
    write_all_at path encoded 0
    when (ltb 0 header.slot_count) (write_all_at path (replicate header.slot_count 0) header_size)
    sync

  -- The slots, and whether they were found in the file: a header that does not fit, or a file that
  -- cannot be read, is replaced.
  pub fresh_slots : Text → Header → Exec Disk (List ℕ × Bool)
  fresh_slots path expected = do
    initialize_file path expected
    pure (replicate expected.slot_count 0, false)

  slots_of : Text → Header → Result (List ℕ) → Exec Disk (List ℕ × Bool)
  slots_of path expected (ok slots) = pure (slots, true)
  slots_of path expected (err _) = fresh_slots path expected

  pub found_slots : Text → Header → Result Header → Exec Disk (List ℕ × Bool)
  unfolding slots_of
  found_slots path expected (err _) = fresh_slots path expected
  found_slots path expected (ok header) =
      if header_eq header expected
      then (do slots ← caught (read_slots path expected.slot_count); slots_of path expected slots)
      else fresh_slots path expected

  pub load_slots : Bool → Text → Header → Exec Disk (List ℕ × Bool)
  unfolding found_slots fresh_slots
  load_slots false path expected = fresh_slots path expected
  load_slots true path expected = do
    header ← caught (read_header path)
    found_slots path expected header

  unfoldable pub expected_header : BlobDescriptor → ℕ → ℕ → Header
  expected_header blob unit_bytes count = record {
    magic = magic;
    version = version;
    unit_bytes = unit_bytes;
    blob_digest = blob.digest;
    blob_size = blob.size;
    slot_count = count;
  }

  unfoldable pub open_or_create : Text → BlobDescriptor → ℕ → Exec Disk OpenedRangeMap
  unfolding load_slots expected_header
  open_or_create target_path blob unit_bytes = do
    lift (validate_fetch_unit_bytes unit_bytes)
    let path = bitmap_path target_path
    existed ← gets (exists path)
    count ← lift (slot_count blob.size unit_bytes)
    open_create path
    (slots, needs_recovery) ← load_slots existed path (expected_header blob unit_bytes count)
    pure (record {
      range_map = record {
        file = path;
        unit_bytes = unit_bytes;
        blob_size = blob.size;
        slot_count = count;
        slots = slots;
      };
      needs_recovery = needs_recovery;
    })
