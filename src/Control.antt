-- ===== src/Control.antt =====
-- src/control.rs: the control plane, an HTTP server on a socket. This file has the requests and
-- their handlers; `Http` has the reader of requests and the writer of responses.
pub mod Http
pub mod Routes
pub mod Puts
pub mod Stream
use lazyd.Base.{
  ℕ, ◌+◌, ◌-◌, Text, Bytes, text, text_eq, Bool, true, false, ◌&&◌, ◌||◌, not, Option, none, some,
  List, [], ◌∷◌, ◌++◌, length, take, drop, any, ltb, ◌==◌, if◌then◌else◌,
}
use lazyd.Errors.{Error, bad_request, not_found, Result, ok, err, ok_or}
use lazyd.Exec.{Exec, pure, lift, gets, continue, ◌>>=◌, ◌>>◌}
use lazyd.Remote.{oci_registry}
use lazyd.RangeMap.{BlobDescriptor}
use lazyd.Instance.{InstanceConfig, external}
use lazyd.Registry.{World, Setup, len, get, ensure, register, unregister, on_disk}
use lazyd.Prepare.{
  PrepareImageRequest, PrepareLayerDescriptor, PreparedLayer, blob, prepare_cache_layers,
}

pub record Request : Type 0 where
  pub method : Text
  pub path : Text
  pub body : Bytes

pub record Response : Type 0 where
  pub status : ℕ
  pub content_type : Option Text
  pub body : Bytes

-- `Response::empty` and `Response::json`
unfoldable pub empty : ℕ → Response
empty status = record { status = status; content_type = none; body = [] }

unfoldable pub json : ℕ → Bytes → Response
json status body = record {
  status = status;
  content_type = some (text "application/json");
  body = body;
}

pub record DaemonInfo : Type 0 where
  pub state : Text
  pub instances : ℕ
  pub io_backends : List Text
  pub remote_backend : Text

pub record EnsureRangeRequest : Type 0 where
  pub offset : ℕ
  pub len : ℕ

-- `serde_json` at the types of the control plane
pub record ControlJson : Type 0 where
  pub daemon_info : DaemonInfo → Result Bytes
  pub prepare_request : Bytes → Result PrepareImageRequest
  pub prepare_response : List PreparedLayer → Result Bytes
  pub range_request : Bytes → Result EnsureRangeRequest
  pub config : Bytes → Result InstanceConfig
  pub error_body : Text → Result Bytes

-- `char::is_whitespace`, on ASCII
abbrev pub is_space : ℕ → Bool
is_space c = c == 32 || (c == 9 || (c == 10 || (c == 11 || (c == 12 || c == 13))))

-- `request.image_ref.trim().is_empty()`
unfoldable pub is_blank : Text → Bool
is_blank s = not (any (λ c. not (is_space c)) s)

unfoldable pub validate_prepare_request : PrepareImageRequest → Result (Unit {0})
validate_prepare_request request =
    if is_blank request.image_ref
    then err (bad_request (text "image_ref is required"))
    else if length request.layers == 0
    then err (bad_request (text "layers is required"))
    else if request.fetch.unit_bytes == 0
    then err (bad_request (text "fetch.unit_bytes must be greater than zero"))
    else if request.pmem.alignment_bytes == 0
    then err (bad_request (text "pmem.alignment_bytes must be greater than zero"))
    else ok tt

-- `str::strip_prefix`
unfoldable pub strip_prefix : Text → Text → Option Text
strip_prefix [] s = some s
strip_prefix (p ∷ prefix) [] = none
strip_prefix (p ∷ prefix) (c ∷ s) =
    let rest = strip_prefix prefix s in if p == c then rest else none

-- `str::strip_suffix`
unfoldable pub strip_suffix : Text → Text → Option Text
strip_suffix suffix s =
    let n = length s - length suffix in
    if ltb (length s) (length suffix) || not (text_eq (drop n s) suffix)
    then none
    else some (take n s)

abbrev pub instances_prefix : Text
instances_prefix = text "/api/v1/instances/"

-- `(!instance_id.is_empty() && !instance_id.contains('/')).then_some(instance_id)`
unfoldable pub one_segment : Text → Option Text
one_segment id = if not (length id == 0) && not (any (λ c. c == b'/') id) then some id else none

unfoldable pub instance_id : Text → Option Text
instance_id path = elim (strip_prefix instances_prefix path) [
  | none ↦ none
  | some id ↦ one_segment id
]

unfoldable pub ensure_range_instance_id : Text → Option Text
ensure_range_instance_id path = elim (strip_prefix instances_prefix path) [
  | none ↦ none
  | some rest ↦ elim (strip_suffix (text "/ranges/ensure") rest) [
    | none ↦ none
    | some id ↦ one_segment id
  ]
]

abbrev pub unknown : Error
unknown = not_found (text "unknown endpoint")

module _ (setup : Setup) (codec : ControlJson) (image_cache_dir : Text) where
  -- The configuration of the instance for one layer
  unfoldable pub layer_config :
      PrepareImageRequest → PrepareLayerDescriptor → PreparedLayer → InstanceConfig
  layer_config request layer prepared = record {
    instance_id = [];
    target_path = prepared.sparse_path;
    blob = blob layer;
    source = oci_registry request.image_ref request.hosts_dir;
    auth = request.auth;
    fetch = record { unit_bytes = request.fetch.unit_bytes };
    trigger_mode = external;
  }

  -- The loop of `prepare_image` over the layers and what was prepared for them
  unfoldable pub register_layers :
      PrepareImageRequest → List PrepareLayerDescriptor → List PreparedLayer → Exec World Unit
  register_layers request [] _ w = (ok tt, w)
  register_layers request (_ ∷ _) [] w = (ok tt, w)
  register_layers request (layer ∷ layers) (p ∷ ps) w =
      continue (register setup p.instance_id (layer_config request layer p) w).0
        (λ _. register_layers request layers ps)
        (register setup p.instance_id (layer_config request layer p) w).1

  -- The lock of `prepare_image` makes the calls of it one after the other.
  unfoldable pub prepare_image : PrepareImageRequest → Exec World (List PreparedLayer)
  prepare_image request = do
    prepared ←
        on_disk (prepare_cache_layers setup.json setup.lseek image_cache_dir request request.layers)
    register_layers request request.layers prepared
    pure prepared

  unfoldable pub get_daemon : Exec World Response
  get_daemon = do
    n ← gets len
    body ← lift (
        codec.daemon_info (record {
          state = text "running";
          instances = n;
          io_backends = text "fanotify" ∷ text "external" ∷ [];
          remote_backend = text "oci-registry";
        }))
    pure (json 200 body)

  unfoldable pub post_prepare : Bytes → Exec World Response
  post_prepare body = do
    prepare ← lift (codec.prepare_request body)
    lift (validate_prepare_request prepare)
    layers ← prepare_image prepare
    body' ← lift (codec.prepare_response layers)
    pure (json 200 body')

  unfoldable pub put_instance : Text → Bytes → Exec World Response
  put_instance path body = do
    id ← lift (ok_or (instance_id path) unknown)
    config ← lift (codec.config body)
    register setup id (record config { instance_id = id })
    pure (empty 204)

  unfoldable pub delete_instance : Text → Exec World Response
  delete_instance path = do
    id ← lift (ok_or (instance_id path) unknown)
    unregister setup id
    pure (empty 204)

  -- `none` while the call of `ensure_range` waits.
  unfoldable pub post_ensure : Text → Bytes → World → Option (Result Response × World)
  post_ensure path body w = elim (ensure_range_instance_id path) [
    | none ↦ some (err unknown, w)
    | some id ↦ elim (codec.range_request body) [
      | err e ↦ some (err e, w)
      | ok range ↦ elim (ensure setup id range.offset range.len w) [
        | none ↦ none
        | some (r, v) ↦ some (elim r [ err e ↦ err e | ok _ ↦ ok (empty 204) ], v)
      ]
    ]
  ]

  unfoldable pub handle_request : Request → World → Option (Result Response × World)
  handle_request request w =
      if text_eq request.method (text "GET") && text_eq request.path (text "/api/v1/daemon")
      then some (get_daemon w)
      else if text_eq request.method (text "POST")
          && text_eq request.path (text "/api/v1/images/prepare")
      then some (post_prepare request.body w)
      else if text_eq request.method (text "POST")
      then post_ensure request.path request.body w
      else if text_eq request.method (text "PUT")
      then some (put_instance request.path request.body w)
      else if text_eq request.method (text "DELETE")
      then some (delete_instance request.path w)
      else some (err unknown, w)
