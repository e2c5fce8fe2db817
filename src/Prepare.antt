-- ===== src/Prepare.antt =====
-- src/prepare.rs: the sparse cache file and the bitmap of each layer of an image.
pub mod Align
pub mod Keys
pub mod Sparse
pub mod Placed
pub mod Layers
use lazyd.Base.{
  ℕ, ◌+◌, ◌-◌, ◌*◌, ◌/◌, Text, text, text_eq, decimal, Bool, true, false, ◌&&◌, ◌||◌, not, Option,
  none, some, List, [], ◌∷◌, ◌++◌, ltb, leb, ◌==◌, if◌then◌else◌, checked_add, wrapping_mul,
}
use lazyd.Errors.{bad_request, conflict, Result, ok, err, reject_if}
use lazyd.Exec.{Exec, pure, fail, lift, gets, when, zoom, ◌>>=◌, ◌>>◌}
use lazyd.Disk.{Disk, exists, open_create, open_existing, metadata_len, set_len, sync}
use lazyd.RangeMap.{
  BlobDescriptor, MapState, OpenedRangeMap, bitmap_path, bitmap_unit_bytes,
  validate_fetch_unit_bytes,
}
use lazyd.RangeMap.Open.{HeaderCodec, open_or_create}
use lazyd.RangeMap.Presence.{Lseek}
use lazyd.RangeMap.Recovery.{recovery_reconcile}
use lazyd.Remote.{AuthConfig}

abbrev pub erofs_layer_media_type : Text
erofs_layer_media_type = text "application/vnd.erofs.layer.v1"

abbrev pub default_pmem_alignment_bytes : ℕ
default_pmem_alignment_bytes = 2 * 1024 * 1024

pub record PrepareLayerDescriptor : Type 0 where
  pub index : ℕ
  pub digest : Text
  pub size : ℕ
  pub media_type : Text

unfoldable pub blob : PrepareLayerDescriptor → BlobDescriptor
blob layer = record { digest = layer.digest; size = layer.size; media_type = some layer.media_type }

pub record PrepareFetchConfig : Type 0 where
  pub unit_bytes : ℕ

pub record PreparePmemConfig : Type 0 where
  pub alignment_bytes : ℕ

abbrev pub default_prepare_fetch : PrepareFetchConfig
default_prepare_fetch = record { unit_bytes = bitmap_unit_bytes }

abbrev pub default_prepare_pmem : PreparePmemConfig
default_prepare_pmem = record { alignment_bytes = default_pmem_alignment_bytes }

pub record PrepareImageRequest : Type 0 where
  pub image_ref : Text
  pub hosts_dir : Option Text
  pub auth : Option AuthConfig
  pub layers : List PrepareLayerDescriptor
  pub fetch : PrepareFetchConfig
  pub pmem : PreparePmemConfig

pub record PreparedLayer : Type 0 where
  pub index : ℕ
  pub sparse_path : Text
  pub bitmap_path : Text
  pub blob_digest : Text
  pub blob_size : ℕ
  pub pmem_size : ℕ
  pub media_type : Text
  pub instance_id : Text

unfoldable pub align_up : ℕ → ℕ → Result ℕ
align_up value alignment =
    if alignment == 0
    then err (bad_request (text "pmem.alignment_bytes must be greater than zero"))
    else elim (checked_add value (alignment - 1)) [
      | none ↦ err (bad_request (text "pmem size overflows u64"))
      | some sum ↦ ok (wrapping_mul (sum / alignment) alignment)
    ]

abbrev pub between : ℕ → ℕ → ℕ → Bool
between a b c = leb a c && leb c b

-- `char::is_ascii_alphanumeric`
abbrev pub is_ascii_alphanumeric : ℕ → Bool
is_ascii_alphanumeric c = between b'0' b'9' c || (between b'A' b'Z' c || between b'a' b'z' c)

abbrev pub is_kept : ℕ → Bool
is_kept c = is_ascii_alphanumeric c || (c == b'-' || c == b'_')

-- The bytes of UTF-8 behind the first of a character
abbrev pub is_continuation : ℕ → Bool
is_continuation c = between 128 191 c

-- One character of the key for a character of the digest, which may be several bytes.
unfoldable pub cache_key : Text → Text
cache_key [] = []
cache_key (c ∷ digest) =
    let rest = cache_key digest in
    if is_continuation c then rest else (if is_kept c then c else b'-') ∷ rest

unfoldable pub instance_id : Text → Text
instance_id key = text "erofs-" ++ key

ends_with_slash : Text → Bool
ends_with_slash [] = false
ends_with_slash (c ∷ []) = c == b'/'
ends_with_slash (c ∷ d ∷ s) = ends_with_slash (d ∷ s)

-- `Path::join`
unfoldable pub join : Text → Text → Text
unfolding ends_with_slash
join [] path = path
join (r ∷ root) [] = if ends_with_slash (r ∷ root) then r ∷ root else (r ∷ root) ++ text "/"
join (r ∷ root) (c ∷ path) =
    if c == b'/'
    then c ∷ path
    else if ends_with_slash (r ∷ root)
    then (r ∷ root) ++ c ∷ path
    else (r ∷ root) ++ b'/' ∷ c ∷ path

-- What `create_sparse_file` does with the length that it finds.
size_file : Text → ℕ → Bool → ℕ → Exec Disk Unit
size_file path len existed current =
    if not existed || ltb current len
    then set_len path len
    else if ltb len current
    then fail
        (conflict (text "existing sparse cache " ++ (path ++ text " is larger than expected")))
    else pure tt

unfoldable pub create_sparse_file : Text → ℕ → Exec Disk Unit
unfolding size_file
create_sparse_file path len = do
  existed ← gets (exists path)
  open_create path
  current ← metadata_len path
  size_file path len existed current

unfoldable pub check_layer : PrepareLayerDescriptor → Result (Unit {0})
check_layer layer =
    if not (text_eq layer.media_type erofs_layer_media_type)
    then err (
        bad_request (
          text "layer "
          ++ (decimal layer.index
              ++ (text " media type "
                  ++ (layer.media_type
                      ++ text
                          " is not native EROFS; convert rootfs to native EROFS and push first")))))
    else reject_if (layer.size == 0) (
        bad_request
          (text "layer " ++ (decimal layer.index ++ text " blob size must be greater than zero")))

module _ (json : HeaderCodec) (lseek : Lseek) (cache_root : Text)
    (request : PrepareImageRequest) where
  -- The recovery of a map that was found; the map is dropped behind it, and the disk stays.
  recover : Text → OpenedRangeMap → Exec Disk Unit
  recover layer opened d =
      let (r, t) = recovery_reconcile lseek layer (record { map = opened.range_map; disk = d }) in
      (r, t.disk)

  unfoldable pub sparse_path_of : PrepareLayerDescriptor → Text
  sparse_path_of layer = join (join cache_root (cache_key layer.digest)) (text "layer.erofs")

  -- The files of one layer: the directory, the cache file and the bitmap.
  unfoldable pub open_layer : PrepareLayerDescriptor → ℕ → Exec Disk Unit
  unfolding recover
  open_layer layer pmem_size = do
    sync
    create_sparse_file (sparse_path_of layer) pmem_size
    open_existing (sparse_path_of layer)
    opened ← open_or_create json (sparse_path_of layer) (blob layer) request.fetch.unit_bytes
    when opened.needs_recovery (recover (sparse_path_of layer) opened)

  unfoldable pub prepared_layer : PrepareLayerDescriptor → ℕ → PreparedLayer
  prepared_layer layer pmem_size = record {
    index = layer.index;
    sparse_path = sparse_path_of layer;
    bitmap_path = bitmap_path (sparse_path_of layer);
    blob_digest = layer.digest;
    blob_size = layer.size;
    pmem_size = pmem_size;
    media_type = layer.media_type;
    instance_id = instance_id (cache_key layer.digest);
  }

  -- The body of the loop
  unfoldable pub prepare_layer : PrepareLayerDescriptor → Exec Disk PreparedLayer
  prepare_layer layer = do
    lift (check_layer layer)
    pmem_size ← lift (align_up layer.size request.pmem.alignment_bytes)
    open_layer layer pmem_size
    pure (prepared_layer layer pmem_size)

  unfoldable pub prepare_layers : List PrepareLayerDescriptor → Exec Disk (List PreparedLayer)
  prepare_layers [] = pure []
  prepare_layers (layer ∷ layers) = do
    p ← prepare_layer layer
    rest ← prepare_layers layers
    pure (p ∷ rest)

  unfoldable pub prepare_cache_layers : List PrepareLayerDescriptor → Exec Disk (List PreparedLayer)
  prepare_cache_layers layers = do
    lift (validate_fetch_unit_bytes request.fetch.unit_bytes)
    prepare_layers layers
