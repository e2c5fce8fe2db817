-- ===== src/Witnesses/Files.antt =====
-- The theorems on the preparation of images and on the header of the bitmap at concrete inputs.
use lazyd.Base.{
  true, refl, text_eq, div_ceil, ℕ, ◌+◌, ◌-◌, ◌^◌, ◌*◌, ◌%◌, ◌≤◌, ◌<◌, ◌≡◌, ◌⊎◌, text, none, List,
  [], ◌∷◌, arith, u64_end,
}
use lazyd.Errors.{Error, ok, err}
use lazyd.Fanotify.Loop.{is_ok}
use lazyd.Disk.{
  Disk, success, sync, open_create, metadata_len, exists, set_len, open_existing, write_all_at,
  splice,
}
use lazyd.RangeMap.{slot_count, bitmap_path, validate_fetch_unit_bytes}
use lazyd.Errors.{bad_request}
use lazyd.Prepare.{
  prepare_layers, prepare_layer, check_layer, open_layer, sparse_path_of, join, blob, align_up,
  cache_key, create_sparse_file, prepare_cache_layers, PrepareLayerDescriptor, PrepareImageRequest,
  PreparedLayer, erofs_layer_media_type, default_prepare_fetch, default_prepare_pmem,
}
use lazyd.Prepare.Align.{align_up_lem}
use lazyd.Prepare.Keys.{IsSafe, characters, cache_key_lem}
use lazyd.Prepare.Sparse.{Sized, create_sparse_file-Sized}
use lazyd.Prepare.Layers.{AllPrepared, prepare_cache_layers-Ends}
use lazyd.Base.{length}
use lazyd.RangeMap.Open.{
  decode_header, open_or_create, initialize_file, encode_header, expected_header,
}
use lazyd.RangeMap.Open.Codec.{decode-encode_header}
use lazyd.Witnesses.Headers.{
  toy_json, toy_json-CodecLaws, one_header, header_bytes, one_header_runs,
}
use lazyd.Witnesses.{empty_disk, layer, cold_setup}

align_up_example :
    ((r : ℕ) × (align_up 4097 4096 ≡ ok r) × (r % 4096 ≡ 0) × (4097 ≤ r) × (r < 4097 + 4096))
    ⊎ ((align_up 4097 4096 ≡ err (bad_request (text "pmem size overflows u64")))
        × (u64_end ≤ 4097 + (4096 - 1)))
align_up_example = align_up_lem 4097 4096 (omega arith)

cache_key_example :
    IsSafe (cache_key (text "sha256:a/b"))
    × (length (cache_key (text "sha256:a/b")) ≡ characters (text "sha256:a/b"))
    × (IsSafe (text "sha256:a/b") → cache_key (text "sha256:a/b") ≡ text "sha256:a/b")
    × (cache_key (cache_key (text "sha256:a/b")) ≡ cache_key (text "sha256:a/b"))
cache_key_example = cache_key_lem (text "sha256:a/b")

create_sparse_file_example :
    Sized layer 4096 empty_disk
      (create_sparse_file layer 4096 empty_disk).0
      (create_sparse_file layer 4096 empty_disk).1
create_sparse_file_example = create_sparse_file-Sized layer 4096 empty_disk

abbrev two_layers : List PrepareLayerDescriptor
two_layers =
    record { index = 0; digest = text "sha256:a"; size = 5; media_type = erofs_layer_media_type }
    ∷ record { index = 1; digest = text "sha256:b"; size = 7; media_type = erofs_layer_media_type }
    ∷ []

abbrev image_request : PrepareImageRequest
image_request = record {
  image_ref = text "r/i:t";
  hosts_dir = none;
  auth = none;
  layers = two_layers;
  fetch = default_prepare_fetch;
  pmem = default_prepare_pmem;
}

-- A disk whose calls all succeed
abbrev calm : Disk
calm = record empty_disk { plan = λ n. success }

prepare_cache_layers_example :
    ((e : Error) × ((prepare_cache_layers cold_setup.json cold_setup.lseek
          (text "/c")
          image_request
          two_layers
          calm).0
        ≡ err e))
    ⊎ ((ps : List PreparedLayer) × (e : Disk) × (prepare_cache_layers cold_setup.json
            cold_setup.lseek
            (text "/c")
            image_request
            two_layers
            calm
          ≡ (ok ps, e))
        × (validate_fetch_unit_bytes (2 ^ 20) ≡ ok tt)
        × AllPrepared (text "/c") (2 * 1024 * 1024) e two_layers ps)
prepare_cache_layers_example =
    prepare_cache_layers-Ends cold_setup.json cold_setup.lseek (text "/c") image_request two_layers
      calm

-- Both layers are prepared there.
calm_prepares :
    is_ok
      (prepare_cache_layers cold_setup.json cold_setup.lseek
        (text "/c")
        image_request
        two_layers
        calm).0
    ≡ true
unfolding prepare_cache_layers validate_fetch_unit_bytes prepare_layers prepare_layer check_layer
    text_eq text align_up open_layer sync create_sparse_file open_create metadata_len exists set_len
    open_existing sparse_path_of join cache_key open_or_create initialize_file encode_header
    div_ceil write_all_at slot_count bitmap_path expected_header splice blob
calm_prepares = refl

decode-encode_header_example :
    (length header_bytes ≡ 4096) × (decode_header toy_json header_bytes ≡ ok one_header)
decode-encode_header_example =
    decode-encode_header toy_json toy_json-CodecLaws one_header header_bytes one_header_runs
