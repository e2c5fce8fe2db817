-- ===== src/Control/Stream.antt =====
-- `handle_stream` of src/control.rs: one request of a client, read, handled and answered; and what
-- `serve` does before it accepts.
pub mod Responses
pub mod Answered
use lazyd.Base.{Text, Bytes, Option, none, some, List, [], ◌∷◌, ◌++◌}
use lazyd.Errors.{Result, ok, err}
use lazyd.Exec.{Exec, ◌>>=◌, ◌>>◌}
use lazyd.Disk.{Disk}
use lazyd.Registry.{World, Setup}
use lazyd.Data.Sockets.{make_way}
use lazyd.Control.{Request, Response, ControlJson, handle_request}
use lazyd.Control.Http.{Reads, read_request, render_response}

-- What the system gives for one stream: the reads, and the answer of `write_all`; and `from_utf8`
pub record Connection : Type 0 where
  pub reads : Reads
  pub write_all : Bytes → Result (Unit {0})
  pub from_utf8 : Bytes → Result (Unit {0})

-- The world, and the bytes of each call of `write_all` on the stream.
pub record Served : Type 0 where
  pub world : World
  pub written : List Bytes

unfoldable pub write_all : Connection → Bytes → Exec Served Unit
write_all c bytes s = (c.write_all bytes, record s { written = s.written ++ bytes ∷ [] })

unfoldable pub write_response : ControlJson → Connection → Result Response → Exec Served Unit
write_response codec c response s = elim (render_response codec response) [
  | err e ↦ (err e, s)
  | ok bytes ↦ write_all c bytes s
]

module _ (setup : Setup) (codec : ControlJson) (cache_root : Text) where
  -- A request that cannot be read gets no response.
  unfoldable pub handle_stream : Connection → Served → Option (Result (Unit {0}) × Served)
  handle_stream c s = elim (read_request c.from_utf8 c.reads) [
    | err e ↦ some (err e, s)
    | ok request ↦ elim (handle_request setup codec cache_root request s.world) [
      | none ↦ none
      | some (response, v) ↦ some (write_response codec c response (record s { world = v }))
    ]
  ]

-- `serve` up to its loop, with `UnixListener::bind`
unfoldable pub open_listener : (Text → Exec Disk Unit) → Text → Exec Disk Unit
open_listener bind socket = do make_way socket; bind socket
