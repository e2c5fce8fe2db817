-- ===== src/Registry/Reopen/Leaves.antt =====
-- `Instance::open` writes no file but the bitmap of its target, whether it succeeds or fails.
use lazyd.Base.{ℕ, ◌≡◌, ◌∙◌, refl, ap, inl, inr, Text, text_eq, Bool-cases}
use lazyd.Errors.{ok}
use lazyd.Exec.{lift, pure}
use lazyd.Disk.{open_existing}
use lazyd.Disk.Laws.Leaves.{Leaves, bind-Leaves, lift-Leaves, open_existing-Leaves}
use lazyd.RangeMap.{OpenedRangeMap, bitmap_path, validate_fetch_unit_bytes}
use lazyd.RangeMap.Open.{open_or_create}
use lazyd.RangeMap.Open.Leaves.{open_or_create-Leaves}
use lazyd.RangeMap.Open.Opened.{open_or_create-Opened}
use lazyd.RangeMap.Recovery.Leaves.{recovery_reconcile-OnlyMap}
use lazyd.Instance.{InstanceConfig}
use lazyd.Registry.{Setup, recover, new_instance, open_map, open_instance}
use lazyd.Registry.Reopen.Whole.{
  behind_recover, behind_open, behind_target, behind_check, opened_as,
}

module _ (setup : Setup) (blob : ℕ → ℕ) (config : InstanceConfig) where
  abbrev path : Text
  path = bitmap_path config.target_path

  recover-Leaves :
      (o : OpenedRangeMap)
      → o.range_map.file ≡ path
      → Leaves path (recover setup config.target_path o)
  unfolding recover
  recover-Leaves o file d q ne = elim (Bool-cases o.needs_recovery) [
    | inr h ↦ rw h refl
    | inl h ↦ rw h (
        (recovery_reconcile-OnlyMap setup.lseek config.target_path
            (record { map = o.range_map; disk = d })).others
          q (ap (λ p. text_eq p q) file ∙ ne))
  ]

  open_map-Leaves : Leaves path (open_map setup config)
  unfolding open_map
  open_map-Leaves =
      bind-Leaves path (lift (validate_fetch_unit_bytes config.fetch.unit_bytes))
        (λ _. behind_check setup blob config)
        (lift-Leaves path (validate_fetch_unit_bytes config.fetch.unit_bytes))
        (λ _ _ _.
          bind-Leaves path (open_existing config.target_path) (λ _. behind_target setup blob config)
            (open_existing-Leaves path config.target_path)
            (λ _ _ _.
              bind-Leaves path
                (open_or_create setup.json config.target_path config.blob config.fetch.unit_bytes)
                (behind_open setup blob config)
                (open_or_create-Leaves setup.json config.target_path config.blob
                  config.fetch.unit_bytes)
                (λ o d q.
                  let file =
                    (open_or_create-Opened setup.json config.target_path config.blob
                      config.fetch.unit_bytes d
                      (open_or_create setup.json config.target_path config.blob
                        config.fetch.unit_bytes d).1
                      o
                      (ap
                        (λ r. (
                          r,
                          (open_or_create setup.json config.target_path config.blob
                              config.fetch.unit_bytes d).1,
                        ))
                        q)).file in
                  bind-Leaves path (recover setup config.target_path o)
                    (behind_recover setup blob config) (recover-Leaves o file)
                    (λ m _ _.
                      bind-Leaves path
                        (lift (setup.from_config config.blob config.source config.auth))
                        (λ _. pure m)
                        (lift-Leaves path (setup.from_config config.blob config.source config.auth))
                        (λ _ _ _. lift-Leaves path (ok m))))))

  pub open_instance-Leaves : Leaves path (open_instance setup config)
  unfolding open_instance
  open_instance-Leaves =
      bind-Leaves path (open_map setup config) (opened_as setup blob config) open_map-Leaves
        (λ m _ _. lift-Leaves path (ok (new_instance setup config m)))
