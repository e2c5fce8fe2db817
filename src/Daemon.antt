-- ===== src/Daemon.antt =====
-- The whole daemon as one state: the registry of src/instance.rs under the calls of the control
-- plane, the event loop of src/fanotify.rs and the streams of src/data.rs, one after the other.
pub mod Calls
pub mod Streams
pub mod Removal
pub mod Changes
pub mod Invariant
pub mod Arcs
use lazyd.Base.{ℕ, ◌≡◌, Text, Bytes, text_eq, false, Option, none, some, List, [], ◌∷◌}
use lazyd.Errors.{Result}
use lazyd.RangeMap.{bitmap_path}
use lazyd.Instance.{Instance, InstanceConfig}
use lazyd.Instance.Fetch.{IsHonest}
use lazyd.Fanotify.{panics, out_of_fuel, returns}
use lazyd.Fanotify.Loop.{run_event_loop}
use lazyd.Data.{DataEnv}
use lazyd.Data.Stream.{Exchange, handle_stream}
use lazyd.Registry.{Setup, World, get, register, unregister, ensure}
use lazyd.Registry.Names.{named}
use lazyd.Registry.Serving.{WorldServes}
use lazyd.Registry.Reopen.{TellsTruth}
use lazyd.Registry.Apart.{PathsApart, AllApart}

-- Every instance serves its blob, with an honest backend, and no two of them share a file.
pub record Sound (setup : Setup) (blob : Text → ℕ → ℕ) (w : World) : Type 0 where
  pub serves : WorldServes setup blob w
  pub apart : AllApart w

-- What a new instance finds: a backend that is honest, a bitmap file that tells the truth, and
-- other instances that use neither of its two files.
pub record Joins (setup : Setup) (blob : Text → ℕ → ℕ) (id : Text) (config : InstanceConfig)
    (w : World) : Type 0 where
  pub honest : IsHonest (blob id) (setup.backend (named id config))
  pub truth : TellsTruth setup.json (blob id) (named id config) w.disk.files
  pub apart :
      (other : Text) (j : Instance)
      → get other w ≡ some j
      → text_eq id other ≡ false
      → PathsApart config.target_path (bitmap_path config.target_path) j

-- What the daemon is asked to do: `register`, `unregister` and `ensure_range` by the control plane,
-- the reads of the kernel's events, the packets of a stream by a client.
pub data Act : Type 0 where
  registers : Text → InstanceConfig → Act
  unregisters : Text → Act
  ensures : Text → (offset len : ℕ) → Act
  reads : List (Result Bytes) → Act
  packets : List Exchange → Act

module _ (setup : Setup) (env : DataEnv) where
  -- The world behind an act, whatever it answers; `none` while it waits, and if it panics.
  unfoldable pub act : Act → World → Option World
  act (registers id config) w = some (register setup id config w).1
  act (unregisters id) w = some (unregister setup id w).1
  act (ensures id offset len) w = elim (ensure setup id offset len w) [
    | none ↦ none
    | some (_, v) ↦ some v
  ]
  act (reads rs) w =
      elim (run_event_loop setup rs (record { world = w; responses = []; closed = [] })) [
        | panics ↦ none
        | out_of_fuel ↦ none
        | returns none ↦ none
        | returns (some l) ↦ some l.world
      ]
  act (packets xs) w = elim (handle_stream setup env xs w) [ none ↦ none | some (_, v) ↦ some v ]

  unfoldable pub run : List Act → World → Option World
  run [] w = some w
  run (a ∷ acts) w = elim (act a w) [ none ↦ none | some v ↦ run acts v ]

  -- Each name that is registered while it is free finds what `Joins` says.
  abbrev pub Joining : (Text → ℕ → ℕ) → Act → World → Type 0
  Joining blob (registers id config) w = get id w ≡ none → Joins setup blob id config w
  Joining blob _ w = Unit

  abbrev pub AllJoin : (Text → ℕ → ℕ) → List Act → World → Type 0
  AllJoin blob [] w = Unit
  AllJoin blob (a ∷ acts) w =
      Joining blob a w × ((v : World) → act a w ≡ some v → AllJoin blob acts v)
