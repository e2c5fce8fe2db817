-- ===== src/Registry/Reopen/Whole.antt =====
-- `Instance::open` from end to end, when it succeeds.
use mathlib.Core.Path.{subst₂}
use lazyd.Base.{ℕ, ◌≡◌, ap, sym, subst, ◌∙◌, inl, inr, Text, List, [], Bool-cases}
use lazyd.Errors.{Result, ok}
use lazyd.Exec.{Exec, Result-cases, bind-parts, lift, pure, ◌>>=◌, ◌>>◌}
use lazyd.Disk.{Disk, open_existing}
use lazyd.Disk.Laws.Files.{open_existing-files}
use lazyd.RangeMap.{RangeMap, OpenedRangeMap, MapState, bitmap_path, validate_fetch_unit_bytes}
use lazyd.RangeMap.Open.{open_or_create}
use lazyd.RangeMap.Open.Opened.{open_or_create-Opened}
use lazyd.RangeMap.Recovery.{recovery_reconcile}
use lazyd.RangeMap.Recovery.Leaves.{recovery_reconcile-OnlyMap}
use lazyd.Instance.{InstanceConfig, Instance}
use lazyd.Instance.Backed.{Backed}
use lazyd.Instance.Fetch.{Serves}
use lazyd.Instance.Reopen.Recovery.{recovery_reconcile-Recovers}
use lazyd.Registry.{Setup, recover, new_instance, open_map, open_instance}
use lazyd.Registry.Reopen.{TellsTruth, Opened-Backed}

module _ (setup : Setup) (blob : ℕ → ℕ) (config : InstanceConfig) where
  abbrev target : Text
  target = config.target_path

  -- A map with its disk behind `open_or_create` or behind the recovery.
  record Ready (m : RangeMap) (e : Disk) : Type 0 where
    backed : Backed blob target m e
    unit : m.unit_bytes ≡ config.fetch.unit_bytes
    size : m.blob_size ≡ config.blob.size
    file : m.file ≡ bitmap_path target

  module _ (o : OpenedRangeMap) (d : Disk) (r : Ready o.range_map d) where
    abbrev recovery : Result (Unit {0}) × MapState
    recovery = recovery_reconcile setup.lseek target (record { map = o.range_map; disk = d })

    recovered-Ready : Ready recovery.1.map recovery.1.disk
    recovered-Ready =
        let v =
          recovery_reconcile-Recovers setup.lseek blob target
            (record { map = o.range_map; disk = d }) r.backed in
        record {
          backed = v.backed;
          unit = v.unit ∙ r.unit;
          size = v.size ∙ r.size;
          file =
              (recovery_reconcile-OnlyMap setup.lseek target
                (record { map = o.range_map; disk = d })).file
              ∙ r.file;
        }

    same_outcome :
        (m n : RangeMap) (e f : Disk)
        → ◌≡◌ {A = Result RangeMap × Disk} (ok m, e) (ok n, f)
        → Ready m e
        → Ready n f
    same_outcome m n e f q h =
        let same_map : m ≡ n = cc in subst₂ Ready same_map (ap (λ x. x.1) q) h

    recover-Ready : (m : RangeMap) (e : Disk) → recover setup target o d ≡ (ok m, e) → Ready m e
    unfolding recover
    recover-Ready m e h = elim (Bool-cases o.needs_recovery) [
      | inr no_need ↦ same_outcome o.range_map m d e (rw no_need at h) r
      | inl needed ↦ elim (Result-cases recovery.0) [
        | inr (x, q) ↦ let z = rw (needed, q) at h in cc
        | inl (u, q) ↦
            same_outcome recovery.1.map m recovery.1.disk e (rw (needed, q) at h) recovered-Ready
      ]
    ]

  abbrev pub behind_recover : RangeMap → Exec Disk RangeMap
  behind_recover range_map = do
    lift (setup.from_config config.blob config.source config.auth)
    pure range_map

  abbrev pub behind_open : OpenedRangeMap → Exec Disk RangeMap
  behind_open opened = do range_map ← recover setup target opened; behind_recover range_map

  abbrev pub behind_target : Exec Disk RangeMap
  behind_target = do
    opened ← open_or_create setup.json target config.blob config.fetch.unit_bytes
    behind_open opened

  abbrev pub behind_check : Exec Disk RangeMap
  behind_check = do open_existing target; behind_target

  open_map-Ready :
      (d e : Disk) (m : RangeMap)
      → TellsTruth setup.json blob config d.files
      → open_map setup config d ≡ (ok m, e)
      → Ready m e
  unfolding open_map
  open_map-Ready d e m truth h =
      let (_, valid, h1) =
        bind-parts (lift (validate_fetch_unit_bytes config.fetch.unit_bytes)) (λ _. behind_check) d
          m e h in
      let (_, there, h2) = bind-parts (open_existing target) (λ _. behind_target) d m e h1 in
      let d1 : Disk = (open_existing target d).1 in
      let (o, opened, h3) =
        bind-parts (open_or_create setup.json target config.blob config.fetch.unit_bytes)
          behind_open d1 m e h2 in
      let d2 : Disk = (open_or_create setup.json target config.blob config.fetch.unit_bytes d1).1 in
      let (n, recovered, h4) = bind-parts (recover setup target o) behind_recover d2 m e h3 in
      let d3 : Disk = (recover setup target o d2).1 in
      let (_, client, h5) =
        bind-parts (lift (setup.from_config config.blob config.source config.auth)) (λ _. pure n) d3
          m e h4 in
      let map_opened =
        open_or_create-Opened setup.json target config.blob config.fetch.unit_bytes d1 d2 o
          (ap (λ r. (r, d2)) opened) in
      let truth1 : TellsTruth setup.json blob config d1.files =
        subst (TellsTruth setup.json blob config) (sym (open_existing-files target d)) truth in
      let start : Ready o.range_map d2 = record {
        backed = Opened-Backed setup.json blob config d1.files truth1 o.range_map d2 map_opened;
        unit = map_opened.unit;
        size = map_opened.size;
        file = map_opened.file;
      } in
      same_outcome o d2 start n m d3 e h5
        (recover-Ready o d2 start n d3 (ap (λ r. (r, d3)) recovered))

  abbrev pub opened_as : RangeMap → Exec Disk Instance
  opened_as range_map = pure (new_instance setup config range_map)

  -- On a disk where, if the bitmap file has the header of this blob and unit, each slot that is
  -- set there has the blob's bytes in the cache file: when Instance::open succeeds, whether it
  -- reads the slots, finds another header, finds no file or recovers, its instance serves the
  -- blob, with nothing in flight and the configuration that was given.
  pub open_instance-Serves :
      (d e : Disk) (i : Instance) (calls : List (ℕ × ℕ))
      → TellsTruth setup.json blob config d.files
      → open_instance setup config d ≡ (ok i, e)
      → Serves blob (record { inst = i; disk = e; calls = calls })
        × (i.inflight ≡ [])
        × (i.config ≡ config)
  unfolding open_instance new_instance
  open_instance-Serves d e i calls truth h =
      let (m, opened, h1) = bind-parts (open_map setup config) opened_as d i e h in
      let d1 : Disk = (open_map setup config d).1 in
      let r = open_map-Ready d d1 m truth (ap (λ x. (x, d1)) opened) in
      let same : new_instance setup config m ≡ i = cc in
      let disk : d1 ≡ e = ap (λ x. x.1) h1 in
      (
        subst₂ (λ j x. Serves blob (record { inst = j; disk = x; calls = calls })) same disk
            (record {
              backed = r.backed;
              consistent = record { map = r.backed.map; unit = sym r.unit; size = sym r.size };
            }),
        ap (λ j. j.inflight) (sym same),
        ap (λ j. j.config) (sym same),
      )

  -- The bitmap of an instance that was opened is at the path that its target gives.
  pub open_instance-file :
      (d e : Disk) (i : Instance)
      → TellsTruth setup.json blob config d.files
      → open_instance setup config d ≡ (ok i, e)
      → i.range_map.file ≡ bitmap_path target
  unfolding open_instance new_instance
  open_instance-file d e i truth h =
      let (m, opened, h1) = bind-parts (open_map setup config) opened_as d i e h in
      let r =
        open_map-Ready d (open_map setup config d).1 m truth
          (ap (λ x. (x, (open_map setup config d).1)) opened) in
      let same : new_instance setup config m ≡ i = cc in
      ap (λ j. j.range_map.file) (sym same) ∙ r.file
