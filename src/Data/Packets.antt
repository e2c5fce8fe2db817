-- ===== src/Data/Packets.antt =====
-- The packets of src/data.rs and the address of its socket.
use lazyd.Base.{
  ℕ, suc, ◌+◌, ◌-◌, ◌*◌, ◌≤◌, ◌<◌, ◌≡◌, refl, ◌⊎◌, inl, inr, ◌↔◌, arith, Text, Bytes, text, Bool,
  false, not, Option, none, some, [], ◌∷◌, ◌++◌, length, any, take, replicate, ltb, leb, ◌==◌,
  if◌then◌else◌, Bool-cases,
}
use lazyd.Errors.{IoError, bad_request, remote, io, Result, ok, err}
use lazyd.RangeMap.Open.{position}

abbrev pub max_packet_bytes : ℕ
max_packet_bytes = 64 * 1024

-- The return of `send`, `sendmsg` or `recvmsg`: a count, or -1 with the error.
pub data Count : Type 0 where
  count : ℕ → Count
  failure : IoError → Count

-- What follows the send of a packet
abbrev pub sent_all : Bytes → Count → Result (Unit {0})
sent_all bytes (failure e) = err (io e)
sent_all bytes (count sent) =
    if sent == length bytes then ok tt else err (remote (text "short seqpacket send"))

-- `send_packet`, with the answer of `send`
unfoldable pub send_packet : (Bytes → Count) → Bytes → Result (Unit {0})
send_packet send bytes =
    if ltb max_packet_bytes (length bytes)
    then err (bad_request (text "data packet too large"))
    else sent_all bytes (send bytes)

-- `send_packet_with_fd`, with whether there is room for the control message, and the answer of
-- `sendmsg`. The descriptor that goes with the packet is given as the path that its file was opened
-- at.
unfoldable pub send_packet_with_fd :
    Bool → (Bytes → Text → Count) → Bytes → Text → Result (Unit {0})
send_packet_with_fd has_room sendmsg bytes fd =
    if ltb max_packet_bytes (length bytes)
    then err (bad_request (text "data packet too large"))
    else if not has_room
    then err (remote (text "failed to build fd control message"))
    else sent_all bytes (sendmsg bytes fd)

-- What `recvmsg` leaves: its count, the bytes in the buffer, whether the control message was cut,
-- and the descriptor of a control message of the right kind, if it is not negative.
pub record Received : Type 0 where
  pub received : Count
  pub buf : Bytes
  pub truncated : Bool
  pub passed : Option ℕ

unfoldable pub recv_packet_with_fd : Received → Result (Bytes × Option ℕ)
recv_packet_with_fd msg = elim msg.received [
  | failure e ↦ err (io e)
  | count n ↦
      if msg.truncated
      then err (remote (text "truncated fd control message"))
      else if n == 0
      then err (remote (text "data peer closed"))
      else ok (take n msg.buf, msg.passed)
]

unfoldable pub recv_packet : Received → Result Bytes
recv_packet msg = elim (recv_packet_with_fd msg) [ err e ↦ err e | ok (packet, _) ↦ ok packet ]

-- `sockaddr_un.sun_path`
abbrev pub sun_path_len : ℕ
sun_path_len = 108

-- `path_len`
unfoldable pub path_len : Bytes → ℕ
path_len sun_path = elim (position (λ byte. byte == 0) sun_path) [
  | none ↦ length sun_path
  | some n ↦ n
]

-- The bytes of `sun_path` and the length of the address
unfoldable pub sockaddr_un : Text → Result (Bytes × ℕ)
sockaddr_un path =
    if leb sun_path_len (length path)
    then err (bad_request (text "unix socket path too long"))
    else (let sun_path = path ++ replicate (sun_path_len - length path) 0 in
        ok (sun_path, 2 + path_len sun_path + 1))

-- send_packet succeeds exactly when the packet has at most 64 KiB and the system took all of its
-- bytes.
pub send_packet_iff :
    (send : Bytes → Count) (bytes : Bytes)
    → (send_packet send bytes ≡ ok tt)
      ↔ ((length bytes ≤ 64 * 1024) × (send bytes ≡ count (length bytes)))
unfolding send_packet
send_packet_iff send bytes = (λ h. ground arith, λ h. ground arith)

position-zeros :
    (path : Text) (n : ℕ)
    → any (λ byte. byte == 0) path ≡ false
    → position (λ byte. byte == 0) (path ++ replicate (suc n) 0) ≡ some (length path)
unfolding position
position-zeros [] n h = refl
position-zeros (b ∷ path) n h = ground (arith, position-zeros path n)

pub path_len-zeros :
    (path : Text) (n : ℕ)
    → any (λ byte. byte == 0) path ≡ false
    → path_len (path ++ replicate (suc n) 0) ≡ length path
unfolding path_len
path_len-zeros path n h = rw (position-zeros path n h, path_len) refl

-- A path without a zero byte that is shorter than 108 bytes gets the address that starts with it
-- and is filled with zeros, of the length of the family, the path and one zero; a path that is as
-- long or longer is refused.
pub sockaddr_un_lem :
    (path : Text)
    → any (λ byte. byte == 0) path ≡ false
    → ((length path < 108)
        × (sockaddr_un path ≡ ok (path ++ replicate (108 - length path) 0, 2 + length path + 1)))
      ⊎ ((108 ≤ length path)
          × (sockaddr_un path ≡ err (bad_request (text "unix socket path too long"))))
unfolding sockaddr_un
sockaddr_un_lem path h = elim (Bool-cases (leb sun_path_len (length path))) [
  | inl q ↦ inr (ground arith, rw q refl)
  | inr q ↦
      let e : 108 - length path ≡ suc (107 - length path) = ground arith in
      inl (ground arith, rw (q, e, path_len-zeros path (107 - length path) h) refl)
]
