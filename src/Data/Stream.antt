-- ===== src/Data/Stream.antt =====
-- `handle_stream` of src/data.rs: the packets of one connection, each received, answered and sent.
pub mod Exchanged
use lazyd.Base.{ℕ, Bytes, Bool, Option, none, some, List, [], ◌∷◌}
use lazyd.Errors.{Result, ok, err}
use lazyd.Instance.Pages.{Handle}
use lazyd.Registry.{World, Setup}
use lazyd.Data.{DataEnv, DataResponse, Reply, good, bad, handle_packet}
use lazyd.Data.Packets.{Count, Received, recv_packet, send_packet, send_packet_with_fd}

-- What the system answers while one packet is handled: what `recvmsg` leaves, whether there is room
-- for the control message, `send` and `sendmsg`.
pub record Exchange : Type 0 where
  pub msg : Received
  pub has_room : Bool
  pub send : Bytes → Count
  pub sendmsg : Bytes → Handle → Count

-- The `match response` of `handle_stream_once`
unfoldable pub send_response :
    DataEnv → Exchange → Reply (DataResponse × Handle) → Result (Unit {0})
send_response env x (good (response, file)) = elim (env.to_vec response) [
  | err e ↦ err e
  | ok bytes ↦ send_packet_with_fd x.has_room x.sendmsg bytes file
]
send_response env x (bad response) = elim (env.to_vec response) [
  | err e ↦ err e
  | ok bytes ↦ send_packet x.send bytes
]

module _ (setup : Setup) (env : DataEnv) where
  unfoldable pub handle_stream_once : Exchange → World → Option (Result (Unit {0}) × World)
  handle_stream_once x w = elim (recv_packet x.msg) [
    | err e ↦ some (err e, w)
    | ok packet ↦ elim (handle_packet setup env packet w) [
      | none ↦ none
      | some (response, v) ↦ some (send_response env x response, v)
    ]
  ]

  -- The loop on the packets that have come; `ok` while it waits for the next.
  unfoldable pub handle_stream : List Exchange → World → Option (Result (Unit {0}) × World)
  handle_stream [] w = some (ok tt, w)
  handle_stream (x ∷ xs) w = elim (handle_stream_once x w) [
    | none ↦ none
    | some (err e, v) ↦ some (err e, v)
    | some (ok _, v) ↦ handle_stream xs v
  ]
