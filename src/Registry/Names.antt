-- ===== src/Registry/Names.antt =====
-- What a client of `InstanceRegistry` may rely on: names and the configurations under them. The
-- instances, the marks, the disk and the requests are forgotten.
pub mod Refines
use lazyd.Base.{
  ℕ, ◌≡◌, ◌≢◌, ◌⊎◌, Text, text, text_eq, Option, none, some, List, [], ◌∷◌, if◌then◌else◌,
}
use lazyd.Errors.{Result, Error, ok, err, conflict, not_found}
use lazyd.Instance.{InstanceConfig, Instance}
use lazyd.Registry.{Setup, World, get, check_config, register, unregister, ensure}

abbrev pub Names : Type 0
Names = Text → Option InstanceConfig

abbrev pub assign : Names → Text → Option InstanceConfig → Names
assign f id c name = if text_eq id name then c else f name

abbrev pub config_of : Option Instance → Option InstanceConfig
config_of none = none
config_of (some i) = some i.config

abbrev pub names : World → Names
names w id = config_of (get id w)

abbrev pub named : Text → InstanceConfig → InstanceConfig
named id config = record config { instance_id = id }

pub data Op : Type 0 where
  registers : Text → InstanceConfig → Op
  unregisters : Text → Op
  ensures : Text → (offset len : ℕ) → Op

module _ (setup : Setup) where
  -- What an operation may answer, and what it does to the names. A name that is free may be taken;
  -- the same configuration again changes nothing, and another one is a conflict. Registration and
  -- reads may fail for reasons of the system, and then the names are as they were.
  pub data Allowed (f : Names) : Op → Result (Unit {0}) → Names → Type 0 where
    taken :
        (id : Text) (config : InstanceConfig)
        → f id ≡ none
        → Allowed f (registers id config) (ok tt) (assign f id (some (named id config)))
    again :
        (id : Text) (config : InstanceConfig)
        → f id ≡ some (named id config)
        → Allowed f (registers id config) (ok tt) f
    conflicting :
        (id : Text) (config other : InstanceConfig)
        → f id ≡ some other
        → other ≢ named id config
        → Allowed f
            (registers id config)
            (err (conflict (text "instance already exists with different config")))
            f
    invalid :
        (id : Text) (config : InstanceConfig) (e : Error)
        → check_config setup config ≡ err e
        → Allowed f (registers id config) (err e) f
    unopened :
        (id : Text) (config : InstanceConfig) (e : Error)
        → f id ≡ none
        → Allowed f (registers id config) (err e) f
    freed : (id : Text) (r : Result (Unit {0})) → Allowed f (unregisters id) r (assign f id none)
    unknown :
        (id : Text) (offset len : ℕ)
        → f id ≡ none
        → Allowed f (ensures id offset len) (err (not_found (text "instance not found"))) f
    answered :
        (id : Text) (offset len : ℕ) (config : InstanceConfig) (r : Result (Unit {0}))
        → f id ≡ some config
        → Allowed f (ensures id offset len) r f

  -- An operation of the registry; `none` while it waits.
  abbrev pub step : Op → World → Option (Result (Unit {0}) × World)
  step (registers id config) w = some (register setup id config w)
  step (unregisters id) w = some (unregister setup id w)
  step (ensures id offset len) w = ensure setup id offset len w

  -- A sequence of operations that all returned, with their answers.
  pub data Ran : World → List (Op × Result (Unit {0})) → World → Type 0 where
    stop : {w : World} → Ran w [] w
    next :
        (op : Op) {r : Result (Unit {0})} {w v u : World} {ops : List (Op × Result (Unit {0}))}
        → step op w ≡ some (r, v)
        → Ran v ops u
        → Ran w ((op, r) ∷ ops) u

  pub data Permitted : Names → List (Op × Result (Unit {0})) → Names → Type 0 where
    stop : {f : Names} → Permitted f [] f
    next :
        {op : Op} {r : Result (Unit {0})} {f g h : Names} {ops : List (Op × Result (Unit {0}))}
        → Allowed f op r g
        → Permitted g ops h
        → Permitted f ((op, r) ∷ ops) h
