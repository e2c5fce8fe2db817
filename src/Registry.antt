-- ===== src/Registry.antt =====
-- src/instance.rs, `Instance::open` and `InstanceRegistry`: the instances of the daemon under their
-- names.
pub mod Config
pub mod Changes
pub mod Serving
pub mod Apart
pub mod Reopen
pub mod Names
use lazyd.Base.{
  ℕ, ◌≡◌, Text, text, text_eq, Bool, true, false, ◌&&◌, Option, none, some, List, [], ◌∷◌, length,
  ◌==◌, if◌then◌else◌, Map, lookup, insert, remove,
}
use lazyd.Errors.{bad_request, conflict, not_found, Error, Result, ok, err, reject_if}
use lazyd.Exec.{Exec, pure, fail, lift, gets, modify, zoom, when, ◌>>=◌, ◌>>◌}
use lazyd.Disk.{Disk, open_existing}
use lazyd.RangeMap.{BlobDescriptor, RangeMap, OpenedRangeMap, validate_fetch_unit_bytes}
use lazyd.RangeMap.Open.{HeaderCodec, open_or_create}
use lazyd.RangeMap.Presence.{Lseek}
use lazyd.RangeMap.Recovery.{recovery_reconcile}
use lazyd.Remote.{RemoteSource, oci_registry, AuthConfig, RemoteBackend}
use lazyd.Instance.{
  TriggerMode, fanotify, external, InstanceConfig, Instance, InstanceState, ensure_range,
}
use lazyd.Fanotify.Marks.{Kernel, Marks, mark, unmark}

abbrev pub option_eq : {A : Type 0} → (A → A → Bool) → Option A → Option A → Bool
option_eq eq none none = true
option_eq eq (some a) (some b) = eq a b
option_eq eq _ _ = false

abbrev pub blob_eq : BlobDescriptor → BlobDescriptor → Bool
blob_eq a b =
    text_eq a.digest b.digest && (a.size == b.size && option_eq text_eq a.media_type b.media_type)

abbrev pub source_eq : RemoteSource → RemoteSource → Bool
source_eq (oci_registry image hosts) (oci_registry image' hosts') =
    text_eq image image' && option_eq text_eq hosts hosts'

abbrev pub auth_eq : AuthConfig → AuthConfig → Bool
auth_eq a b = text_eq a.username b.username && text_eq a.secret b.secret

abbrev pub is_fanotify : TriggerMode → Bool
is_fanotify fanotify = true
is_fanotify external = false

abbrev pub mode_eq : TriggerMode → TriggerMode → Bool
mode_eq fanotify fanotify = true
mode_eq external external = true
mode_eq _ _ = false

-- The derived `==` of `InstanceConfig`
unfoldable pub config_eq : InstanceConfig → InstanceConfig → Bool
config_eq a b =
    text_eq a.instance_id b.instance_id
    && (text_eq a.target_path b.target_path
        && (blob_eq a.blob b.blob
            && (source_eq a.source b.source
                && (option_eq auth_eq a.auth b.auth
                    && (a.fetch.unit_bytes == b.fetch.unit_bytes
                        && mode_eq a.trigger_mode b.trigger_mode)))))

-- The registry, the marks of its fanotify backend, the disk, and the requests to the remote side.
pub record World : Type 0 where
  pub instances : Map Text Instance
  pub marks : Marks
  pub disk : Disk
  pub calls : List (ℕ × ℕ)

abbrev pub on_disk : {A : Type 0} → Exec Disk A → Exec World A
on_disk = zoom (λ w. w.disk) (λ w d. record w { disk = d })

-- `InstanceRegistry::len`
unfoldable pub len : World → ℕ
len w = length w.instances

unfoldable pub get : Text → World → Option Instance
get instance_id w = lookup text_eq instance_id w.instances

abbrev pub put_marks : Result Marks → Exec World Unit
put_marks (ok marks) w = (ok tt, record w { marks = marks })
put_marks (err e) w = (err e, w)

-- What the daemon is made of: JSON, `lseek`, the system's calls on files, whether there is a
-- fanotify backend, and `OciRemoteBackend::from_config`, with the backend that it makes.
pub record Setup : Type 0 where
  pub json : HeaderCodec
  pub lseek : Lseek
  pub kernel : Kernel
  pub has_fanotify : Bool
  pub from_config : BlobDescriptor → RemoteSource → Option AuthConfig → Result (Unit {0})
  pub backend : InstanceConfig → RemoteBackend

module _ (setup : Setup) where
  -- `recovery_reconcile` of the map that was opened
  unfoldable pub recover : Text → OpenedRangeMap → Exec Disk RangeMap
  recover target opened d =
      if opened.needs_recovery
      then (let (r, t) =
            recovery_reconcile setup.lseek target (record { map = opened.range_map; disk = d }) in
          (elim r [ err e ↦ err e | ok _ ↦ ok t.map ], t.disk))
      else (ok opened.range_map, d)

  -- `with_remote_and_range_map`
  unfoldable pub new_instance : InstanceConfig → RangeMap → Instance
  new_instance config range_map = record {
    config = config;
    range_map = range_map;
    trusted = true;
    inflight = [];
  }

  -- The part of `Instance::open` that can fail: the cache file, the bitmap with its recovery, and
  -- the backend.
  unfoldable pub open_map : InstanceConfig → Exec Disk RangeMap
  open_map config = do
    lift (validate_fetch_unit_bytes config.fetch.unit_bytes)
    open_existing config.target_path
    opened ← open_or_create setup.json config.target_path config.blob config.fetch.unit_bytes
    range_map ← recover config.target_path opened
    lift (setup.from_config config.blob config.source config.auth)
    pure range_map

  -- `Instance::open`
  unfoldable pub open_instance : InstanceConfig → Exec Disk Instance
  open_instance config = do range_map ← open_map config; pure (new_instance config range_map)

  unfoldable pub check_config : InstanceConfig → Result (Unit {0})
  check_config config =
      elim (reject_if (text_eq config.target_path [])
        (bad_request (text "target_path is required"))) [
          | err e ↦ err e
          | ok _ ↦
              elim (reject_if (config.blob.size == 0)
                (bad_request (text "blob size must be greater than zero"))) [
                  | err e ↦ err e
                  | ok _ ↦ validate_fetch_unit_bytes config.fetch.unit_bytes
                ]
        ]

  unfoldable pub mark_instance : Text → InstanceConfig → Exec World Unit
  mark_instance instance_id config w =
      when (is_fanotify config.trigger_mode && setup.has_fanotify)
        (put_marks (mark setup.kernel w.disk instance_id config.target_path w.marks)) w

  -- The part of `register` for a name that is free.
  unfoldable pub add_instance : Text → InstanceConfig → Exec World Unit
  add_instance instance_id config = do
    instance' ← on_disk (open_instance config)
    mark_instance instance_id config
    modify (λ w. record w { instances = insert text_eq instance_id instance' w.instances })

  -- `register` behind its checks, with the name in the configuration.
  unfoldable pub register_checked : Text → InstanceConfig → Exec World Unit
  register_checked instance_id config w = elim (get instance_id w) [
    | some existing ↦
        if config_eq existing.config config
        then (ok tt, w)
        else (err (conflict (text "instance already exists with different config")), w)
    | none ↦ add_instance instance_id config w
  ]

  unfoldable pub register : Text → InstanceConfig → Exec World Unit
  register instance_id config = do
    lift (check_config config)
    register_checked instance_id (record config { instance_id = instance_id })

  -- The marks of an instance that is removed
  unfoldable pub unmark_removed : Option Instance → Exec World Unit
  unmark_removed none w = (ok tt, w)
  unmark_removed (some i) w =
      when (setup.has_fanotify && is_fanotify i.config.trigger_mode)
        (put_marks (unmark setup.kernel w.disk i.config.target_path w.marks)) w

  unfoldable pub unregister : Text → Exec World Unit
  unregister instance_id = do
    removed ← gets (get instance_id)
    modify (λ w. record w { instances = remove text_eq instance_id w.instances })
    unmark_removed removed

  -- `ensure_range` of an instance in the registry; `none` while it waits.
  unfoldable pub ensure_instance :
      Text → Instance → ℕ → ℕ → World → Option (Result (Unit {0}) × World)
  ensure_instance instance_id i offset len w =
      elim (ensure_range (setup.backend i.config) offset len
        (record { inst = i; disk = w.disk; calls = w.calls })) [
          | none ↦ none
          | some (r, t) ↦ some (
            r,
            record w {
              instances = insert text_eq instance_id t.inst w.instances;
              disk = t.disk;
              calls = t.calls;
            },
          )
        ]

  unfoldable pub ensure : Text → ℕ → ℕ → World → Option (Result (Unit {0}) × World)
  ensure instance_id offset len w = elim (get instance_id w) [
    | none ↦ some (err (not_found (text "instance not found")), w)
    | some i ↦ ensure_instance instance_id i offset len w
  ]
