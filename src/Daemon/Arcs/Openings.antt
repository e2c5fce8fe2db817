-- ===== src/Daemon/Arcs/Openings.antt =====
-- `register` and `unregister` keep what is known of the instances and of the calls on them.
use mathlib.Core.Path.{subst₂}
use lazyd.Base.{
  ℕ, ◌≡◌, refl, ap, sym, subst, ◌∙◌, inl, inr, Text, none, some, [], Option-cases, text_eq,
  if◌then◌else◌,
}
use lazyd.Errors.{Result, ok}
use lazyd.Exec.{Result-cases}
use lazyd.Disk.{Disk}
use lazyd.Instance.{Instance, InstanceConfig}
use lazyd.Instance.Fetch.{Serves, IsHonest}
use lazyd.Instance.Tasks.Invariant.{fresh-Inv}
use lazyd.Registry.{Setup, World, check_config, open_instance, mark_instance}
use lazyd.Registry.Names.{named}
use lazyd.Registry.Reopen.Whole.{open_instance-Serves, open_instance-file}
use lazyd.Registry.Reopen.Leaves.{open_instance-Leaves}
use lazyd.Registry.Apart.{PathsApart}
use lazyd.Daemon.Arcs.{Live, at, outside, open_arc, register_arc, unregister_arc, Opens}
use lazyd.Daemon.Arcs.Change.{
  LiveInv, at-same, at-other, SameFiles, unchanged-LiveInv, changed-LiveInv,
}

module _ (setup : Setup) (blob : ℕ → ℕ → ℕ) (l : Live) (v : LiveInv setup blob l) where
  pub unregister_arc-LiveInv : (id : Text) → LiveInv setup blob (unregister_arc setup id l)
  unfolding unregister_arc
  unregister_arc-LiveInv id =
      unchanged-LiveInv setup blob l (unregister_arc setup id l) v refl refl (λ b j q. (refl, refl))

  module _ (id : Text) (config : InstanceConfig) (a : ℕ) (opens : Opens setup blob id config a l)
      (vacant : l.arcs a ≡ none) where
    abbrev mine : InstanceConfig
    mine = named id config

    abbrev d1 : Disk
    d1 = (open_instance setup mine l.disk).1

    abbrev opened : Live
    opened = record l { disk = d1 }

    abbrev marking : Result (Unit {0}) × World
    marking = mark_instance setup id mine (outside opened)

    files : (b : ℕ) (j : Instance) → l.arcs b ≡ some j → SameFiles l opened j
    files b j q =
        let p = opens.apart b j q in
        let keeps = open_instance-Leaves setup (blob a) mine l.disk in
        (keeps j.config.target_path p.map_target, keeps j.range_map.file p.maps)

    failed-LiveInv : (m : Live) → m.arcs ≡ l.arcs → m.pc ≡ l.pc → m.disk ≡ d1 → LiveInv setup blob m
    failed-LiveInv m arcs pc disk = unchanged-LiveInv setup blob l m v arcs pc (λ b j q. (
      ap (λ d. d.files j.config.target_path) disk ∙ (files b j q).0,
      ap (λ d. d.files j.range_map.file) disk ∙ (files b j q).1,
    ))

    module _ (i : Instance) (q : (open_instance setup mine l.disk).0 ≡ ok i) where
      abbrev joined : Live
      joined = record opened {
        marks = marking.1.marks;
        arcs = at l.arcs a (some i);
        names = λ name. if text_eq id name then some a else l.names name;
      }

      whole : open_instance setup mine l.disk ≡ (ok i, d1)
      whole = ap (λ r. (r, d1)) q

      ready :
          Serves (blob a) (record { inst = i; disk = d1; calls = l.calls })
          × (i.inflight ≡ [])
          × (i.config ≡ mine)
      ready = open_instance-Serves setup (blob a) mine l.disk d1 i l.calls opens.truth whole

      joined-LiveInv : LiveInv setup blob joined
      joined-LiveInv =
          changed-LiveInv setup blob l joined v a i (at-same l.arcs a (some i))
            (λ b h. at-other l.arcs a b (some i) h) (λ b h. refl)
            (fresh-Inv (blob a) (record { inst = i; disk = d1; calls = l.calls }) (l.pc a) ready.0
              ready.1 (v.unused a vacant))
            (subst (λ c. IsHonest (blob a) (setup.backend c)) (sym ready.2) opens.honest)
            (λ b j g _.
              subst₂ (λ t m. PathsApart t m j) (sym (ap (λ c. c.target_path) ready.2))
                (sym (open_instance-file setup (blob a) mine l.disk d1 i opens.truth whole))
                (opens.apart b j g))
            (λ b j g _. files b j g)

    open_arc-LiveInv : LiveInv setup blob (open_arc setup id mine a l)
    unfolding open_arc
    open_arc-LiveInv = elim (Result-cases (open_instance setup mine l.disk).0) [
      | inr (e, q) ↦ rw (q, open_arc) (failed-LiveInv opened refl refl refl)
      | inl (i, q) ↦ elim (Result-cases marking.0) [
        | inr (e, p) ↦
            rw (q, open_arc, p)
              (failed-LiveInv (record opened { marks = marking.1.marks }) refl refl refl)
        | inl (_, p) ↦ rw (q, open_arc, p) (joined-LiveInv i q)
      ]
    ]

  pub register_arc-LiveInv :
      (id : Text) (config : InstanceConfig) (a : ℕ)
      → (l.names id ≡ none → Opens setup blob id config a l)
      → LiveInv setup blob (register_arc setup id config a l)
  unfolding register_arc
  register_arc-LiveInv id config a opens = elim (Result-cases (check_config setup config)) [
    | inr (e, q) ↦ rw (q, register_arc) v
    | inl (_, q) ↦ elim (Option-cases (l.names id)) [
      | inr (b, n) ↦ rw (q, register_arc, n) v
      | inl n ↦ elim (Option-cases (l.arcs a)) [
        | inr (i, p) ↦ rw (q, register_arc, n, p) v
        | inl p ↦ rw (q, register_arc, n, p) (open_arc-LiveInv id config a (opens n) p)
      ]
    ]
  ]
