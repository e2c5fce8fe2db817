-- ===== src/Daemon/Arcs.antt =====
-- The registry of src/instance.rs with its `Arc<Instance>`s, while calls of `ensure_range` on all
-- of them are under way: an instance whose name is removed lives on in the calls that hold it.
pub mod Change
pub mod Moves
pub mod Openings
pub mod Safety
use lazyd.Base.{
  ℕ, ◌≡◌, ◌≢◌, Text, text_eq, Bool, true, false, Option, none, some, List, [], ◌∷◌, ◌==◌,
  if◌then◌else◌,
}
use lazyd.Errors.{Result, ok, err}
use lazyd.Disk.{Disk}
use lazyd.RangeMap.{bitmap_path}
use lazyd.Instance.{Instance, InstanceConfig, InstanceState}
use lazyd.Instance.Fetch.{IsHonest}
use lazyd.Instance.Tasks.{Pc, idle, called, turn, cancel, is_resting, System, moved}
use lazyd.Fanotify.Marks.{Marks}
use lazyd.Registry.{Setup, World, check_config, open_instance, mark_instance, unmark_removed}
use lazyd.Registry.Names.{named}
use lazyd.Registry.Reopen.{TellsTruth}
use lazyd.Registry.Apart.{PathsApart}

-- The instances by their addresses, the addresses by their names, and where task `k` of the calls
-- on the instance at `a` stands.
pub record Live : Type 0 where
  pub arcs : ℕ → Option Instance
  pub names : Text → Option ℕ
  pub marks : Marks
  pub disk : Disk
  pub calls : List (ℕ × ℕ)
  pub pc : ℕ → ℕ → Pc

abbrev pub at {ℓ} : {X : Type ℓ} → (ℕ → X) → ℕ → X → ℕ → X
at f a x b = if a == b then x else f b

-- The calls on the instance at `a`
abbrev pub system : Live → ℕ → Instance → System
system l a i = record { shared = record { inst = i; disk = l.disk; calls = l.calls }; pc = l.pc a }

abbrev pub settled : Live → ℕ → System → Live
settled l a u = record l {
  arcs = at l.arcs a (some u.shared.inst);
  disk = u.shared.disk;
  calls = u.shared.calls;
  pc = at l.pc a u.pc;
}

-- The files and the marks, for the calls that need no more of the registry.
abbrev pub outside : Live → World
outside l = record { instances = []; marks = l.marks; disk = l.disk; calls = l.calls }

unfoldable pub at_address : Live → ℕ → (Instance → System → System) → Live
at_address l a change = elim (l.arcs a) [
  | none ↦ l
  | some i ↦ settled l a (change i (system l a i))
]

abbrev pub begin_call : ℕ → ℕ → ℕ → System → System
begin_call k offset len u =
    if is_resting (u.pc k) then moved u k (called offset len, u.shared) else u

module _ (setup : Setup) where
  -- `Instance::open` and the mark, for a name that is free; `a` is the address of the new instance.
  unfoldable pub open_arc : Text → InstanceConfig → ℕ → Live → Live
  open_arc id config a l =
      let (r, d) = open_instance setup config l.disk in
      let opened : Live = record l { disk = d } in
      elim r [
        | err _ ↦ opened
        | ok i ↦
            (let (m, w) = mark_instance setup id config (outside opened) in
              elim m [
                | err _ ↦ record opened { marks = w.marks }
                | ok _ ↦ record opened {
                  marks = w.marks;
                  arcs = at l.arcs a (some i);
                  names = λ name. if text_eq id name then some a else l.names name;
                }
              ])
      ]

  -- `register`, without its answer: a name that is there is left alone, whether its configuration
  -- is the same or not.
  unfoldable pub register_arc : Text → InstanceConfig → ℕ → Live → Live
  register_arc id config a l = elim (check_config setup config) [
    | err _ ↦ l
    | ok _ ↦ elim (l.names id) [
      | some _ ↦ l
      | none ↦ elim (l.arcs a) [ some _ ↦ l | none ↦ open_arc id (named id config) a l ]
    ]
  ]

  abbrev pub instance_of : Live → Option ℕ → Option Instance
  instance_of l none = none
  instance_of l (some a) = l.arcs a

  -- `unregister`, without its answer: the calls that are under way keep the instance.
  unfoldable pub unregister_arc : Text → Live → Live
  unregister_arc id l =
      let (_, w) = unmark_removed setup (instance_of l (l.names id)) (outside l) in
      record l { names = λ name. if text_eq id name then none else l.names name; marks = w.marks }

  -- `get` and then a call of `ensure_range`, by a task that makes none
  unfoldable pub call_arc : Text → ℕ → ℕ → ℕ → Live → Live
  call_arc id k offset len l = elim (l.names id) [
    | none ↦ l
    | some a ↦ at_address l a (λ _. begin_call k offset len)
  ]

  -- One turn of a call, and the drop of its future
  unfoldable pub run_arc : ℕ → ℕ → Live → Live
  run_arc a k l =
      at_address l a (λ i u. moved u k (turn (setup.backend i.config) (u.pc k) u.shared))

  unfoldable pub drop_arc : ℕ → ℕ → Live → Live
  drop_arc a k l = at_address l a (λ _ u. moved u k (cancel (u.pc k) u.shared))

-- The last `Arc` of the instance at `a` goes: no name has it and no call holds it.
abbrev pub free_arc : ℕ → Live → Live
free_arc a l = record l { arcs = at l.arcs a none; pc = at l.pc a (λ _. idle) }

pub data Move : Type 0 where
  registers : Text → InstanceConfig → ℕ → Move
  unregisters : Text → Move
  calls : Text → (k offset len : ℕ) → Move
  runs : (a k : ℕ) → Move
  drops : (a k : ℕ) → Move
  frees : ℕ → Move

module _ (setup : Setup) where
  abbrev pub move : Move → Live → Live
  move (registers id config a) l = register_arc setup id config a l
  move (unregisters id) l = unregister_arc setup id l
  move (calls id k offset len) l = call_arc setup id k offset len l
  move (runs a k) l = run_arc setup a k l
  move (drops a k) l = drop_arc setup a k l
  move (frees a) l = free_arc a l

  abbrev pub moves : List Move → Live → Live
  moves [] l = l
  moves (m ∷ ms) l = moves ms (move m l)

  -- What a new instance at `a` finds: an honest backend, a bitmap file that tells the truth, and no
  -- other instance, registered or held by a call, that uses one of its two files.
  pub record Opens (blob : ℕ → ℕ → ℕ) (id : Text) (config : InstanceConfig) (a : ℕ) (l : Live)
      : Type 0 where
    pub honest : IsHonest (blob a) (setup.backend (named id config))
    pub truth : TellsTruth setup.json (blob a) (named id config) l.disk.files
    pub apart :
        (b : ℕ) (j : Instance)
        → l.arcs b ≡ some j
        → PathsApart config.target_path (bitmap_path config.target_path) j

  abbrev pub Opening : (ℕ → ℕ → ℕ) → Move → Live → Type 0
  Opening blob (registers id config a) l = l.names id ≡ none → Opens blob id config a l
  Opening blob (frees a) l =
      ((name : Text) → l.names name ≢ some a) × ((k : ℕ) → is_resting (l.pc a k) ≡ true)
  Opening blob _ l = Unit

  abbrev pub AllOpen : (ℕ → ℕ → ℕ) → List Move → Live → Type 0
  AllOpen blob [] l = Unit
  AllOpen blob (m ∷ ms) l = Opening blob m l × AllOpen blob ms (move m l)

-- The daemon when it starts
abbrev pub begun : Disk → Live
begun d = record {
  arcs = λ _. none;
  names = λ _. none;
  marks = [];
  disk = d;
  calls = [];
  pc = λ _ _. idle;
}
