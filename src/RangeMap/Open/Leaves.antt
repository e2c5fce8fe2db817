-- ===== src/RangeMap/Open/Leaves.antt =====
-- `open_or_create` writes no file but the bitmap, whether it succeeds or fails.
use lazyd.Base.{
  ℕ, ◌+◌, [], Bytes, refl, inl, inr, Text, Bool, true, false, List, ltb, ◌==◌, Bool-cases,
  replicate,
}
use lazyd.Errors.{Result, ok, err}
use lazyd.Exec.{Exec, lift, pure, gets, caught, when, ◌>>=◌, ◌>>◌}
use lazyd.Disk.{Disk, open_create, set_len, write_all_at, sync, read_exact_at, exists}
use lazyd.Disk.Laws.Leaves.{
  Leaves, bind-Leaves, lift-Leaves, open_create-Leaves, set_len-Leaves, write_all_at-Leaves,
  sync-Leaves, read_exact_at-Leaves, caught-Leaves, when-Leaves,
}
use lazyd.RangeMap.{
  BlobDescriptor, OpenedRangeMap, bitmap_path, header_size, validate_fetch_unit_bytes, slot_count,
}
use lazyd.RangeMap.Open.{
  HeaderCodec, Header, header_eq, encode_header, decode_header, read_header, read_slots,
  initialize_file, expected_header, fresh_slots, found_slots, slots_of, load_slots, open_or_create,
}

module _ (json : HeaderCodec) (path : Text) where
  module _ (header : Header) where
    abbrev behind_slots : Exec Disk Unit
    behind_slots = do
      when (ltb 0 header.slot_count) (write_all_at path (replicate header.slot_count 0) header_size)
      sync

    abbrev behind_header : Bytes → Exec Disk Unit
    behind_header encoded = do write_all_at path encoded 0; behind_slots

    abbrev behind_len : Exec Disk Unit
    behind_len = do encoded ← lift (encode_header json header); behind_header encoded

    initialize_file-Leaves : Leaves path (initialize_file json path header)
    unfolding initialize_file
    initialize_file-Leaves =
        let zeros = replicate header.slot_count 0 in
        bind-Leaves path (set_len path (header_size + header.slot_count)) (λ _. behind_len)
          (set_len-Leaves path (header_size + header.slot_count))
          (λ _ _ _.
            bind-Leaves path (lift (encode_header json header)) behind_header
              (lift-Leaves path (encode_header json header))
              (λ encoded _ _.
                bind-Leaves path (write_all_at path encoded 0) (λ _. behind_slots)
                  (write_all_at-Leaves path encoded 0)
                  (λ _ _ _.
                    bind-Leaves path
                      (when (ltb 0 header.slot_count) (write_all_at path zeros header_size))
                      (λ _. sync)
                      (when-Leaves path (ltb 0 header.slot_count)
                        (write_all_at path zeros header_size)
                        (write_all_at-Leaves path zeros header_size))
                      (λ _ _ _. sync-Leaves path))))

    fresh_slots-Leaves : Leaves path (fresh_slots json path header)
    unfolding fresh_slots
    fresh_slots-Leaves =
        let done : List ℕ × Bool = (replicate header.slot_count 0, false) in
        bind-Leaves path (initialize_file json path header) (λ _. pure done) initialize_file-Leaves
          (λ _ _ _. lift-Leaves path (ok done))

    slots_of-Leaves : (slots : Result (List ℕ)) → Leaves path (slots_of json path header slots)
    unfolding slots_of
    slots_of-Leaves (ok slots) = lift-Leaves {A = List ℕ × Bool} path (ok (slots, true))
    slots_of-Leaves (err e) = fresh_slots-Leaves

    read_slots-Leaves : (count : ℕ) → Leaves path (read_slots json path count)
    unfolding read_slots
    read_slots-Leaves count = elim (Bool-cases (count == 0)) [
      | inl h ↦ rw h (lift-Leaves {A = List ℕ} path (ok []))
      | inr h ↦ rw h (read_exact_at-Leaves path count header_size)
    ]

    found_slots-Leaves : (found : Result Header) → Leaves path (found_slots json path header found)
    unfolding found_slots
    found_slots-Leaves (err e) = fresh_slots-Leaves
    found_slots-Leaves (ok found) = elim (Bool-cases (header_eq found header)) [
      | inr h ↦ rw h fresh_slots-Leaves
      | inl h ↦ rw h (
          bind-Leaves path (caught (read_slots json path header.slot_count))
            (slots_of json path header)
            (caught-Leaves path (read_slots json path header.slot_count)
              (read_slots-Leaves header.slot_count))
            (λ slots _ _. slots_of-Leaves slots))
    ]

    read_header-Leaves : Leaves path (read_header json path)
    unfolding read_header
    read_header-Leaves =
        bind-Leaves path (read_exact_at path header_size 0) (λ buf. lift (decode_header json buf))
          (read_exact_at-Leaves path header_size 0)
          (λ buf _ _. lift-Leaves path (decode_header json buf))

    load_slots-Leaves : (existed : Bool) → Leaves path (load_slots json existed path header)
    unfolding load_slots
    load_slots-Leaves false = fresh_slots-Leaves
    load_slots-Leaves true =
        bind-Leaves path (caught (read_header json path)) (found_slots json path header)
          (caught-Leaves path (read_header json path) read_header-Leaves)
          (λ found _ _. found_slots-Leaves found)

module _ (json : HeaderCodec) (target : Text) (blob : BlobDescriptor) (unit_bytes : ℕ) where
  abbrev path : Text
  path = bitmap_path target

  abbrev opened_with : ℕ → List ℕ × Bool → Exec Disk OpenedRangeMap
  opened_with count (slots, needs_recovery) = pure (record {
    range_map = record {
      file = path;
      unit_bytes = unit_bytes;
      blob_size = blob.size;
      slot_count = count;
      slots = slots;
    };
    needs_recovery = needs_recovery;
  })

  abbrev behind_create : Bool → ℕ → Exec Disk OpenedRangeMap
  behind_create existed count = do
    loaded ← load_slots json existed path (expected_header json blob unit_bytes count)
    opened_with count loaded

  abbrev behind_count : Bool → ℕ → Exec Disk OpenedRangeMap
  behind_count existed count = do open_create path; behind_create existed count

  abbrev behind_existed : Bool → Exec Disk OpenedRangeMap
  behind_existed existed = do
    count ← lift (slot_count blob.size unit_bytes)
    behind_count existed count

  abbrev behind_valid : Exec Disk OpenedRangeMap
  behind_valid = do existed ← gets (exists path); behind_existed existed

  pub open_or_create-Leaves : Leaves path (open_or_create json target blob unit_bytes)
  unfolding open_or_create
  open_or_create-Leaves =
      bind-Leaves path (lift (validate_fetch_unit_bytes unit_bytes)) (λ _. behind_valid)
        (lift-Leaves path (validate_fetch_unit_bytes unit_bytes))
        (λ _ _ _.
          bind-Leaves path (gets (exists path)) behind_existed (λ d q ne. refl)
            (λ existed _ _.
              bind-Leaves path (lift (slot_count blob.size unit_bytes)) (behind_count existed)
                (lift-Leaves path (slot_count blob.size unit_bytes))
                (λ count _ _.
                  bind-Leaves path (open_create path) (λ _. behind_create existed count)
                    (open_create-Leaves path)
                    (λ _ _ _.
                      bind-Leaves path
                        (load_slots json existed path (expected_header json blob unit_bytes count))
                        (opened_with count)
                        (load_slots-Leaves json path (expected_header json blob unit_bytes count)
                          existed)
                        (λ loaded _ _ d q ne. refl)))))
