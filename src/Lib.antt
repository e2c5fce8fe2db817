-- ===== src/Lib.antt =====
-- lazyd: a daemon that serves a remote EROFS blob lazily. A sparse cache file starts as a hole; a bitmap says which
-- fetch units of it hold the blob's bytes; a request for a range makes the daemon fetch the units that it touches from
-- an OCI registry, write them to the file and mark them in the bitmap.
--
-- The parts, and the files of the crate that they are about:
--   Errors       src/error.rs: the error type, its HTTP status and its message.
--   Exec         actions on a state that may fail; what was done before a failure stays done.
--   Disk         the calls of std::fs that the crate makes. A plan says which of them fail and how much a write takes; the
--                theorems hold for each plan.
--   RangeMap     src/range_map.rs: `RangeMap` with its slots. Slots is the arithmetic of slots_for_range and slot_range;
--                Update and Effects are is_range_ready, set_range_ready and clear_range_ready; Presence is range_is_present;
--                Recovery is recovery_reconcile; Open is the header of the bitmap file and open_or_create.
--   Remote       src/remote/mod.rs: the descriptors and the trait RemoteBackend. Remote/Oci is src/remote/oci.rs:
--                Challenge has parse_bearer_challenge, Image has parse_image_ref, build_blob_url and from_config, and Oci itself has
--                registry_get, the token cache and read_range.
--   Instance     src/instance.rs, `Instance`: ensure_range with its parts. Write is the loop of write_all_at, Amplify is
--                amplify_to_fetch_unit, Backed and Fetch are the safety of the cache, Outcome is the whole call, Pages is
--                prepare_fetch_range, Reopen is the recovery of what was on the disk. Tasks has the calls that run at
--                once: Facts, Turns and Flew are one turn of one call, Invariant, Steps and Safety are all of them, Release is
--                the end of a call, and Alone compares the turns of one call with ensure_range.
--   Registry     src/instance.rs, Instance::open and `InstanceRegistry`. Its `World` is the state that the planes share;
--                Names is what a client may rely on, Apart is what calls leave to other instances, and Reopen is
--                Instance::open after a restart or a crash.
--   Prepare      src/prepare.rs: align_up, cache_key, create_sparse_file and prepare_cache_layers; Placed is the cache file
--                of each layer on the disk, Layers is all of them.
--   Fanotify     src/fanotify.rs: parse_events, the marks, and in Loop the answers of run_event_loop.
--   Data         src/data.rs: parse_fetch_request, handle_fetch and handle_packet. Packets has the system's packets and the
--                address of the socket, Sockets is bind, accept and serve_listener, Stream is handle_stream and
--                handle_stream_once.
--   Daemon       the registry under any sequence of calls of the control plane, reads of events and streams. Calls,
--                Streams, Removal and Changes are the acts one by one, Invariant is any number of them. Arcs is the
--                registry with its shared instances while calls on all of them are under way: Moves and Openings are
--                the moves one by one, Change is what they have in common, Safety is any number of them.
--   Control      src/control.rs: the handlers of requests, prepare_image, and in Http the reader and the writer of HTTP:
--                Joined, Lengths, Framed and Rendered are a response as a reader of HTTP finds it. Stream is handle_stream
--                and what serve does before it accepts.
--   Base         lists, tests, maps, text as bytes, and the arithmetic of u64, over native numbers.
--   Witnesses    the theorems at concrete inputs; so is RangeMap/Tests.
--
-- How they interact: the data plane, the control plane and the event loop look an instance up in the registry and call
-- its ensure_range; that calls the backend, writes the cache file and then the bitmap.
--
-- The model. A number of the source is a natural number with the wrap-around of `*` and `+` written out where the source
-- has no check. Subtraction stops at 0: the source would wrap or panic in amplify_to_fetch_unit for a range behind the blob
-- and in slot_range for a slot behind it, which a well-formed map does not have. An open handle is the path that it was
-- opened at, and a clone of it is the same path; a stream of the control plane keeps the bytes of each write. Trimming and
-- splitting of text know ASCII white space only. create_dir_all may fail but leaves nothing on the model's disk, which has
-- files and no directories. A call that would sleep, because a range in flight
-- overlaps its own, is `none`, and what others have in flight is part of the state. In Instance/Tasks calls run at once:
-- a turn of one goes up to the next lock, request or write of a file, the turns come in any order, and a future may be
-- dropped at an await. In Daemon the acts come one after the other, each as a whole; in Daemon/Arcs the calls of
-- ensure_range on all instances run at once, between registrations and removals, which hold the lock of the registry and
-- are one step each. The loop of write_all_at runs on the bytes that are left; parse_events and parse_range have fuel for
-- one round more than there are bytes, and each round takes at least four of them. The decimal digits of a u64 are at
-- most twenty.
--
-- Parameters, with what is assumed of them as hypotheses of the theorems: serde_json, lseek as in its manual, the calls of
-- fanotify and fstat, the HTTP client with base64 and the parsers of URLs and TOML, from_utf8, UnixListener, and the
-- answers of the system's calls on sockets and of sysconf.
--
-- register does not look for another instance with the same target: the theorems on several instances assume of the requests
-- that a new instance's cache file and bitmap are those of no other one.
--
-- Not modelled: src/main.rs, the accept loop of the control socket, the logging, and the code under cfg(test).
mod Base
pub mod Errors
pub mod Exec
pub mod Disk
pub mod RangeMap
pub mod Remote
pub mod Instance
pub mod Prepare
pub mod Fanotify
pub mod Registry
pub mod Data
pub mod Daemon
mod Witnesses
pub mod Control
