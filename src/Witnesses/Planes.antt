-- ===== src/Witnesses/Planes.antt =====
-- The theorems on the instance, the registry, the event loop and the data plane at one daemon.
use lazyd.Errors.{Error, ok, err}
use lazyd.Control.{ControlJson}
use lazyd.Control.Puts.{Put, put_instance_lem}
use lazyd.Registry.{World}
use lazyd.Base.{lookup, text_eq, some, text, ◌<◌, ◌+◌, ◌^◌, refl, arith, ◌≡◌, [], ◌∷◌}
use lazyd.Fanotify.{range_of}
use lazyd.Fanotify.Marks.{instance_id_for_fd, key_eq}
use lazyd.Fanotify.Loop.{decide}
use lazyd.Fanotify.Loop.Denied.{decide_outside}
use lazyd.Base.{ℕ, ◌+◌, ◌^◌, ◌≤◌, ◌≡◌, ap, ◌⊎◌, Text, text, none, some, [], ◌∷◌, arith, u64_end}
use lazyd.Errors.{ok}
use lazyd.Instance.{Instance, amplify_to_fetch_unit, Range}
use lazyd.Instance.Amplify.{Amplified, amplify_to_fetch_unit_lem}
use lazyd.Instance.Outcome.{Called, ensure_range_lem}
use lazyd.Instance.Pages.Genuine.{Handed, prepare_fetch_range_lem}
use lazyd.Registry.{get, register}
use lazyd.Registry.Changes.{Registered, register-Registered}
use lazyd.Registry.Serving.{EnsuredIn, ensure_lem}
use lazyd.Fanotify.{FanotifyEvent}
use lazyd.Fanotify.Loop.{LoopState, handle_events}
use lazyd.Fanotify.Loop.Allowed.{Decided, decide_lem, Answered, handle_events-Answered}
use lazyd.Data.{host_page_size, DataEnv, FetchRequest, fetch}
use lazyd.Data.Answers.{Replied, handle_packet_lem}
use lazyd.Data.Packets.{count}
use lazyd.Disk.{no_such_file}
use lazyd.Witnesses.{
  sevens, answers, answers-IsHonest, layer_config, layer_instance, cold, cold-IsConsistent,
  cold-Serves, cold_setup, cold_world, only_one, cold-WorldServes,
}

amplify_to_fetch_unit_example :
    (r : Range) × (amplify_to_fetch_unit layer_instance (2 ^ 20 + 1) 2 ≡ ok r)
    × Amplified (2 ^ 20) (2 ^ 20 + 5) (2 ^ 20 + 1) 2 r
amplify_to_fetch_unit_example =
    amplify_to_fetch_unit_lem layer_instance (2 ^ 20 + 1) 2 cold-IsConsistent (omega arith)
      (omega arith)

ensure_range_example : Called sevens answers (2 ^ 20 + 1) 2 cold
ensure_range_example =
    ensure_range_lem sevens answers answers-IsHonest (2 ^ 20 + 1) 2 cold cold-Serves

prepare_fetch_range_example : Handed sevens answers (2 ^ 20) 4096 4096 cold
prepare_fetch_range_example =
    prepare_fetch_range_lem sevens answers (2 ^ 20) 4096 4096 cold answers-IsHonest cold-Serves
      (omega arith)

ensure_example : EnsuredIn cold_setup (λ _. sevens) (text "one") 3 5 cold_world
ensure_example = ensure_lem cold_setup (λ _. sevens) (text "one") 3 5 cold_world cold-WorldServes

abbrev miss : FanotifyEvent
miss = record { fd = 9; range = record { offset = 3; len = 5 } }

decide_example : Decided cold_setup (λ _. sevens) miss cold_world
decide_example = decide_lem cold_setup (λ _. sevens) miss cold_world cold-WorldServes

abbrev idle : LoopState
idle = record { world = cold_world; responses = []; closed = [] }

handle_events_example :
    (handle_events cold_setup (miss ∷ miss ∷ []) idle ≡ none)
    ⊎ ((t : LoopState) × (handle_events cold_setup (miss ∷ miss ∷ []) idle ≡ some t)
        × Answered (miss ∷ miss ∷ []) idle t)
handle_events_example = handle_events-Answered cold_setup (miss ∷ miss ∷ []) idle

register_example :
    Registered cold_setup
      (text "two")
      (record layer_config { instance_id = text "two" })
      cold_world
      (register cold_setup (text "two") layer_config cold_world).0
      (register cold_setup (text "two") layer_config cold_world).1
register_example = register-Registered cold_setup (text "two") layer_config cold_world

abbrev pub page_request : FetchRequest
page_request = record {
  version = 1;
  request_id = text "r";
  op = fetch;
  instance_id = text "one";
  pos = 0;
  len = 4096;
}

abbrev pub data_env : DataEnv
data_env = record {
  from_slice = λ b. ok page_request;
  to_vec = λ r. ok [];
  sysconf = count 4096;
  last_error = no_such_file;
}

pub only_page :
    (id : Text) (page : ℕ) (i : Instance)
    → host_page_size data_env ≡ ok page
    → get id cold_world ≡ some i
    → i.config.blob.size + page ≤ u64_end
unfolding host_page_size
only_page id page i h q =
    let p : 4096 ≡ page = cc in
    let s : 2 ^ 20 + 5 ≡ i.config.blob.size = ap (λ j. j.config.blob.size) (only_one id i q) in
    omega arith

handle_packet_example : Replied cold_setup data_env (λ _. sevens) (1 ∷ []) cold_world
handle_packet_example =
    handle_packet_lem cold_setup data_env (λ _. sevens) (1 ∷ []) cold_world cold-WorldServes
      only_page

-- An access in the last bytes of the blob, with the window of an event whose count is zero
abbrev tail_access : FanotifyEvent
tail_access = record { fd = 9; range = range_of (record { offset = 2 ^ 20; count = 0 }) }

abbrev marked_world : World
marked_world = record cold_world { marks = (record { dev = 1; ino = 1 }, text "one") ∷ [] }

tail_marked : instance_id_for_fd cold_setup.kernel 9 marked_world.marks ≡ some (text "one")
unfolding instance_id_for_fd lookup key_eq
tail_marked = refl

tail_registered : get (text "one") marked_world ≡ some layer_instance
unfolding get lookup text_eq text
tail_registered = refl

tail_behind : 2 ^ 20 + 5 < tail_access.range.offset + tail_access.range.len
unfolding range_of
tail_behind = omega arith

tail_length : 0 < tail_access.range.len
unfolding range_of
tail_length = omega arith

decide_outside_example :
    (v : World) × (decide cold_setup tail_access marked_world ≡ some (2, v))
    × (v.disk ≡ marked_world.disk)
    × (v.calls ≡ marked_world.calls)
decide_outside_example =
    decide_outside cold_setup tail_access marked_world (text "one") layer_instance tail_marked
      tail_registered tail_length tail_behind

abbrev pub control_json : ControlJson
control_json = record {
  daemon_info = λ i. ok [];
  prepare_request = λ b. err (Error.json []);
  prepare_response = λ ls. ok [];
  range_request = λ b. ok (record { offset = 0; len = 1 });
  config = λ b. ok layer_config;
  error_body = λ m. ok m;
}

put_instance_example :
    Put cold_setup control_json (text "/c") (text "/api/v1/instances/two") [] cold_world
put_instance_example =
    put_instance_lem cold_setup control_json (text "/c") (text "/api/v1/instances/two") []
      cold_world
