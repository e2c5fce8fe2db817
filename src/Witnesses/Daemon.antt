-- ===== src/Witnesses/Daemon.antt =====
-- A daemon that starts over an empty cache file, and the streams and events that it serves.
use lazyd.Base.{refl, text, none, some, true, false, length, List, [], ◌∷◌}
use lazyd.Base.{Option, ◌^◌, ◌++◌, ltb, if◌then◌else◌, arith}
use lazyd.Errors.{io, ok, err}
use lazyd.Disk.{no_such_file}
use lazyd.Disk
use lazyd.Control.Http.{crlf}
use lazyd.Control.Stream.{Connection}
use lazyd.Control.Stream.Answered.{Handled, handle_stream-Handled}
use lazyd.Instance
use lazyd.Fanotify.Roundtrip.{KernelEvent, encode_all}
use lazyd.Data.{DataEnv}
use lazyd.Data.Packets.{count}
use lazyd.Data.Stream.{Exchange}
use lazyd.Data.Stream.Exchanged.{Exchanged, handle_stream_once_lem}
use lazyd.Registry.{World}
use lazyd.Daemon.{Act, registers, ensures, reads, packets, run}
use lazyd.Witnesses.{sevens, layer_config, cold_setup, cold_world, cold-WorldServes}
use lazyd.Witnesses.Planes.{control_json, data_env, page_request, only_page}
use lazyd.Witnesses.Reopen.{sparse_disk}

abbrev started : World
started = record { instances = []; marks = []; disk = sparse_disk; calls = [] }

-- A packet of one byte, and a system that sends all.
abbrev one_byte : Exchange
one_byte = record {
  msg = record { received = count 1; buf = 1 ∷ []; truncated = false; passed = none };
  has_room = true;
  send = λ bytes. count (length bytes);
  sendmsg = λ bytes file. count (length bytes);
}

-- An access to the last five bytes of the blob, and a packet that asks for its last page
abbrev tail_event : KernelEvent
tail_event = record { fd = 9; pid = 1; offset = 2 ^ 20; count = 5 }

abbrev tail_env : DataEnv
tail_env = record data_env { from_slice = λ b. ok (record page_request { pos = 2 ^ 20 }) }

abbrev acts : List Act
acts =
    ensures (text "one") 0 5
    ∷ registers (text "one") layer_config
    ∷ reads (ok (encode_all (tail_event ∷ [])) ∷ [])
    ∷ packets (one_byte ∷ [])
    ∷ ensures (text "one") (2 ^ 20) 5
    ∷ []

abbrev world_of : Option World → World
world_of (some w) = w
world_of none = started

abbrev behind : World
behind = world_of (run cold_setup tail_env acts started)

handle_stream_once_example : Exchanged cold_setup data_env (λ _. sevens) one_byte cold_world
handle_stream_once_example =
    handle_stream_once_lem cold_setup data_env (λ _. sevens) one_byte cold_world cold-WorldServes
      only_page

-- A client that asks for the state of the daemon
abbrev connection : Connection
connection = record {
  reads = ok (text "GET /api/v1/daemon HTTP/1.1" ++ (crlf ++ crlf)) ∷ [];
  write_all = λ bytes. if ltb (length bytes) 4096 then ok tt else err (io no_such_file);
  from_utf8 = λ bytes. ok tt;
}

handle_stream_example : Handled cold_setup control_json (text "/c") connection cold_world
handle_stream_example =
    handle_stream-Handled cold_setup control_json (text "/c") connection cold_world
      (λ head ascii. refl) (λ bytes written. ground arith)
