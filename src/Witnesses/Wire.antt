-- ===== src/Witnesses/Wire.antt =====
-- The theorems on events, packets, paths and requests at concrete inputs.
use lazyd.Remote.Oci.Sending.{Sends}
use lazyd.Base.{
  ℕ, ◌+◌, ◌-◌, ◌^◌, ◌≤◌, ◌<◌, ◌≡◌, refl, subst, ◌⊎◌, text, text_eq, none, some, List, [], ◌∷◌,
  get_or, replicate, arith,
}
use lazyd.Errors.{ok}
use lazyd.Base.{◌++◌}
use lazyd.Fanotify.{FanotifyEvent, parse_events, returns}
use lazyd.Fanotify.Reads.{parse_events_lem}
use lazyd.Fanotify.Roundtrip.{
  KernelEvent, IsRepresentable, encode_all, decoded_all, parse_events-encode_all,
}
use lazyd.Data.Packets.{count}
use lazyd.Data.Sockets.{bind}
use lazyd.Data.Sockets.Bind.{bind_lem}
use lazyd.Disk.{Disk, empty_file, put_file, failed}
use lazyd.Base.{take, drop, Text, Bytes, false, length}
use lazyd.Remote.Oci.{
  Client, HttpRequest, HttpResponse, RegistryAuthState, range_header, read_range,
}
use lazyd.Remote.Oci.Requests.{IsGenuine, Genuine, read_range_lem}
use lazyd.Control.{instance_id, ensure_range_instance_id}
use lazyd.Control.Http.{find_header_end}
use lazyd.Control.Http.Head.{find_header_end_lem, FirstAt, blank}
use lazyd.Control.Routes.{routes_lem}
use lazyd.Witnesses.{empty_disk, sevens, get_or-replicate}

abbrev socket_path : Text
socket_path = b'/' ∷ b'd' ∷ []

-- The file of a socket that an earlier daemon has left
abbrev stale_disk : Disk
stale_disk = record empty_disk { files = put_file empty_disk.files socket_path empty_file }

bind_example :
    ((other : Text)
      → text_eq socket_path other ≡ false
      → (bind (count 3) (count 0) socket_path stale_disk).1.files other ≡ stale_disk.files other)
    × ((fd : ℕ)
        → (bind (count 3) (count 0) socket_path stale_disk).0 ≡ ok fd
        → (2 < 108)
          × ((bind (count 3) (count 0) socket_path stale_disk).1.files socket_path
              ≡ some empty_file))
    × ((fd n : ℕ)
        → count 3 ≡ count fd
        → count 0 ≡ count n
        → ((k : ℕ) → failed (stale_disk.plan k) ≡ none)
        → 2 < 108
        → (bind (count 3) (count 0) socket_path stale_disk).0 ≡ ok fd)
bind_example = bind_lem (count 3) (count 0) socket_path stale_disk refl (omega arith)

abbrev kernel_event : KernelEvent
kernel_event = record { fd = 9; pid = 1; offset = 4096; count = 0 }

kernel_event-IsRepresentable : IsRepresentable kernel_event
kernel_event-IsRepresentable = record {
  fd = omega arith;
  offset = omega arith;
  count = omega arith;
}

parse_events_example :
    parse_events (encode_all (kernel_event ∷ [])) ≡ returns (decoded_all (kernel_event ∷ []))
parse_events_example =
    parse_events-encode_all (kernel_event ∷ []) (kernel_event-IsRepresentable, tt)

parse_garbage_example :
    (events : List FanotifyEvent) × (parse_events (255 ∷ 1 ∷ []) ≡ returns events)
parse_garbage_example = parse_events_lem (255 ∷ 1 ∷ [])

-- A registry that asks for a token once, and then answers with a part of the blob.
abbrev registry : Client
registry = record {
  send =
      λ h request. ok (record { status = 206; www_authenticate = none; body = ok (replicate 5 7) });
  token_url = λ c. ok c.realm;
  token_response = λ r. ok (record { token = some (text "t"); access_token = none });
  base64 = λ t. t;
}

answers-IsGenuine :
    (h : List HttpRequest) (request : HttpRequest) (response : HttpResponse)
    → request.range ≡ some (range_header registry 3 (3 + 5 - 1))
    → registry.send h request ≡ ok response
    → IsGenuine sevens (2 ^ 20) 3 response
answers-IsGenuine h request response r q =
    let e : record { status = 206; www_authenticate = none; body = ok (replicate 5 7) } ≡ response =
      cc in
    subst (IsGenuine sevens (2 ^ 20) 3) e (record {
      part = λ bytes b s k lt.
          let z : replicate 5 7 ≡ bytes = cc in
          subst (λ x. k < length x → get_or x k 0 ≡ 7) z (λ l. get_or-replicate 5 k 7 0 l) lt;
      whole = λ bytes b s. absurd (omega arith);
    })

abbrev no_tokens : RegistryAuthState
no_tokens = record { tokens = []; last_challenge = none; sent = [] }

read_range_example :
    Sends 3 no_tokens (read_range registry (text "u") none 3 5 no_tokens).1
    × ((bytes : Bytes)
        → (read_range registry (text "u") none 3 5 no_tokens).0 ≡ ok bytes
        → Genuine sevens 3 5 bytes)
read_range_example =
    read_range_lem registry sevens (2 ^ 20) (text "u") none 3 5 no_tokens (omega arith)
      answers-IsGenuine

abbrev small_head : Bytes
small_head = text "GET / HTTP/1.1\r\n\r\n"

find_header_end_example :
    ((find_header_end small_head ≡ none)
      × ((i : ℕ) → text_eq (take 4 (drop i small_head)) blank ≡ false))
    ⊎ ((n : ℕ) × (find_header_end small_head ≡ some n)
        × (4 ≤ n)
        × (n ≤ length small_head)
        × FirstAt small_head (n - 4))
find_header_end_example = find_header_end_lem small_head

routes_example :
    (instance_id (text "/api/v1/instances/" ++ text "one") ≡ some (text "one"))
    × (ensure_range_instance_id (text "/api/v1/instances/" ++ (text "one" ++ text "/ranges/ensure"))
        ≡ some (text "one"))
routes_example = routes_lem (text "one") (unfold text in (refl, refl))
