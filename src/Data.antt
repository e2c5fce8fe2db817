-- ===== src/Data.antt =====
-- src/data.rs: the data plane, which answers a packet that asks for pages with the range and the
-- handle of the cache file.
pub mod Packets
pub mod Sockets
pub mod Answers
pub mod Stream
use lazyd.Base.{
  ℕ, zero, suc, ◌+◌, Text, Bytes, text, text_eq, Bool, true, false, not, Option, none, some, List,
  [], ◌∷◌, ◌==◌, if◌then◌else◌, lookup, insert,
}
use lazyd.Errors.{IoError, io, Error, not_found, Result, ok, err, status_code, message}
use lazyd.Instance.{Instance, InstanceState}
use lazyd.Instance.Pages.{FetchRange, Handle, prepare_fetch_range}
use lazyd.Registry.{World, Setup, get}
use lazyd.Data.Packets.{Count, count, failure}

abbrev pub protocol_version : ℕ
protocol_version = 1

pub data FetchOp : Type 0 where
  fetch : FetchOp

pub record FetchRequest : Type 0 where
  pub version : ℕ
  pub request_id : Text
  pub op : FetchOp
  pub instance_id : Text
  pub pos : ℕ
  pub len : ℕ

pub data DataResponse : Type 0 where
  fetch_ok : (version : ℕ) (request_id : Text) (ranges : List FetchRange) → DataResponse
  error : (version : ℕ) (request_id : Text) (code : ℕ) (msg : Text) → DataResponse

-- `std::result::Result<A, DataResponse>`
pub data Reply {ℓ} (A : Type ℓ) : Type ℓ where
  good : A → Reply A
  bad : DataResponse → Reply A

-- `serde_json` at the types of the data plane, the answer of `sysconf(_SC_PAGESIZE)`, and the last
-- error of the system.
pub record DataEnv : Type 0 where
  pub from_slice : Bytes → Result FetchRequest
  pub to_vec : DataResponse → Result Bytes
  pub sysconf : Count
  pub last_error : IoError

unfoldable pub host_page_size : DataEnv → Result ℕ
host_page_size env = elim env.sysconf [
  | failure _ ↦ err (io env.last_error)
  | count zero ↦ err (io env.last_error)
  | count (suc n) ↦ ok (suc n)
]

abbrev pub refuse : Text → ℕ → Text → DataResponse
refuse request_id code msg = error protocol_version request_id code msg

-- `err.to_string()` is the message that the error displays.
unfoldable pub parse_fetch_request : DataEnv → Bytes → Reply FetchRequest
parse_fetch_request env packet = elim (env.from_slice packet) [
  | err e ↦ bad (refuse [] 400 (message e))
  | ok request ↦
      if not (request.version == protocol_version)
      then bad (refuse request.request_id 400 (text "unsupported protocol_version"))
      else if text_eq request.request_id []
      then bad (refuse request.request_id 400 (text "request_id is required"))
      else good request
]

module _ (setup : Setup) (env : DataEnv) where
  -- `prepare_fetch_range` of an instance in the registry
  unfoldable pub fetch_pages :
      Instance → FetchRequest → ℕ → World → Option (Result (FetchRange × Handle) × World)
  fetch_pages i request page_size w =
      elim (prepare_fetch_range (setup.backend i.config) request.pos request.len page_size
        (record { inst = i; disk = w.disk; calls = w.calls })) [
          | none ↦ none
          | some (r, t) ↦ some (
            r,
            record w {
              instances = insert text_eq request.instance_id t.inst w.instances;
              disk = t.disk;
              calls = t.calls;
            },
          )
        ]

  abbrev pub answer : FetchRequest → Result (FetchRange × Handle) → Result (DataResponse × Handle)
  answer request (err e) = err e
  answer request (ok (range, file)) =
      ok (fetch_ok protocol_version request.request_id (range ∷ []), file)

  unfoldable pub handle_fetch :
      FetchRequest → World → Option (Result (DataResponse × Handle) × World)
  handle_fetch request w = elim (host_page_size env) [
    | err e ↦ some (err e, w)
    | ok page_size ↦ elim (get request.instance_id w) [
      | none ↦ some (err (not_found (text "instance not found")), w)
      | some i ↦ elim (fetch_pages i request page_size w) [
        | none ↦ none
        | some (r, v) ↦ some (answer request r, v)
      ]
    ]
  ]

  abbrev pub reply : FetchRequest → Result (DataResponse × Handle) → Reply (DataResponse × Handle)
  reply request (ok response) = good response
  reply request (err e) = bad (refuse request.request_id (status_code e) (message e))

  unfoldable pub handle_packet : Bytes → World → Option (Reply (DataResponse × Handle) × World)
  handle_packet packet w = elim (parse_fetch_request env packet) [
    | bad response ↦ some (bad response, w)
    | good request ↦ elim (handle_fetch request w) [
      | none ↦ none
      | some (r, v) ↦ some (reply request r, v)
    ]
  ]
