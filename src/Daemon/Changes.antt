-- ===== src/Daemon/Changes.antt =====
-- `register` keeps the daemon sound, whether it succeeds or fails.
use mathlib.Core.Path.{subst₂}
use lazyd.Base.{
  [], ℕ, ◌≡◌, refl, ap, sym, subst, ◌∙◌, inl, inr, Text, text_eq, text_eq_sound, text_eq_refl,
  false, ◌&&◌, none, some, Bool-cases, Option-cases, lookup, insert, lookup-insert_same,
  lookup-insert_other,
}
use lazyd.Errors.{ok}
use lazyd.Exec.{Result-cases}
use lazyd.Disk.{Disk}
use lazyd.Instance.{Instance, InstanceConfig}
use lazyd.Instance.Fetch.{Serves, IsHonest}
use lazyd.Instance.Fixed.{Serves-elsewhere}
use lazyd.Fanotify.Marks.{mark}
use lazyd.Registry.{
  Setup, World, get, config_eq, is_fanotify, open_instance, mark_instance, add_instance,
  check_config, register_checked, register,
}
use lazyd.Registry.Changes.{
  text-EqLaws, after_open, after_mark, open_fails, mark_fails, adds, kept, free, same_again,
  conflicts,
}
use lazyd.Registry.Names.{named}
use lazyd.Registry.Reopen.Whole.{open_instance-Serves, open_instance-file}
use lazyd.Registry.Reopen.Leaves.{open_instance-Leaves}
use lazyd.Registry.Serving.{state_of}
use lazyd.Registry.Apart.{PathsApart, FilesApart, FilesApart-sym, AllApart}
use lazyd.Daemon.{Sound, Joins}
use lazyd.Daemon.Removal.{put_marks-disk, fewer-Sound}

module _ (setup : Setup) (blob : Text → ℕ → ℕ) where
  mark_instance-disk :
      (id : Text) (config : InstanceConfig) (w : World)
      → (mark_instance setup id config w).1.disk ≡ w.disk
  unfolding mark_instance
  mark_instance-disk id config w =
      elim (Bool-cases (is_fanotify config.trigger_mode && setup.has_fanotify)) [
        | inl h ↦ rw h (put_marks-disk (mark setup.kernel w.disk id config.target_path w.marks) w)
        | inr h ↦ rw h refl
      ]

  module _ (id : Text) (config : InstanceConfig) (w : World) (s : Sound setup blob w)
      (vacant : get id w ≡ none) (joins : Joins setup blob id config w) where
    abbrev mine : InstanceConfig
    mine = named id config

    abbrev d1 : Disk
    d1 = (open_instance setup mine w.disk).1

    other-of : (name : Text) (j : Instance) → get name w ≡ some j → text_eq id name ≡ false
    other-of name j g = elim (Bool-cases (text_eq id name)) [
      | inr h ↦ h
      | inl h ↦ let e = subst (λ n. get n w ≡ none) (text_eq_sound id name h) vacant in absurd cc
    ]

    -- The opening leaves the files of the others.
    opened_files :
        (name : Text) (j : Instance)
        → get name w ≡ some j
        → (d1.files j.config.target_path ≡ w.disk.files j.config.target_path)
          × (d1.files j.range_map.file ≡ w.disk.files j.range_map.file)
    opened_files name j g =
        let a = joins.apart name j g (other-of name j g) in
        let l = open_instance-Leaves setup (blob id) mine w.disk in
        (l j.config.target_path a.map_target, l j.range_map.file a.maps)

    -- A world behind the opening with the old instances
    old-Sound : (v : World) → v.instances ≡ w.instances → v.disk ≡ d1 → Sound setup blob v
    unfolding get
    old-Sound v same disk =
        fewer-Sound setup blob w v (λ name j g. ap (λ m. lookup text_eq name m) (sym same) ∙ g)
          (λ name j g. (
            ap (λ d. d.files j.config.target_path) disk ∙ (opened_files name j g).0,
            ap (λ d. d.files j.range_map.file) disk ∙ (opened_files name j g).1,
          ))
          s

    module _ (i : Instance) (opened : open_instance setup mine w.disk ≡ (ok i, d1)) (v : World)
        (same : v.instances ≡ w.instances) (disk : v.disk ≡ d1) where
      abbrev joined : World
      joined = record v { instances = insert text_eq id i v.instances }

      before : Sound setup blob v
      before = old-Sound v same disk

      get_new : get id joined ≡ some i
      unfolding get
      get_new = lookup-insert_same text_eq text-EqLaws id i v.instances

      get_old : (name : Text) → text_eq id name ≡ false → get name joined ≡ get name v
      unfolding get
      get_old name h = lookup-insert_other text_eq text-EqLaws id name i v.instances h

      -- Every instance is the new one or an old one.
      by_name :
          (P : Text → Instance → Type 0)
          → P id i
          → ((name : Text) (j : Instance)
              → get name v ≡ some j
              → text_eq id name ≡ false
              → P name j)
          → (name : Text) (j : Instance) → get name joined ≡ some j
          → P name j
      by_name P new old name j g = elim (Bool-cases (text_eq id name)) [
        | inr h ↦ old name j (sym (get_old name h) ∙ g) h
        | inl h ↦
            let e = subst (λ n. get n joined ≡ some i) (text_eq_sound id name h) get_new in
            let eq : i ≡ j = cc in
            subst (λ n. P n j) (text_eq_sound id name h) (subst (P id) eq new)
      ]

      ready :
          Serves (blob id) (record { inst = i; disk = d1; calls = v.calls })
          × (i.inflight ≡ [])
          × (i.config ≡ mine)
      ready = open_instance-Serves setup (blob id) mine w.disk d1 i v.calls joins.truth opened

      in_old : (name : Text) (j : Instance) → get name v ≡ some j → get name w ≡ some j
      unfolding get
      in_old name j g = ap (λ m. lookup text_eq name m) (sym same) ∙ g

      new_apart :
          (name : Text) (j : Instance)
          → get name v ≡ some j
          → text_eq id name ≡ false
          → FilesApart i j
      new_apart name j g h =
          let a = joins.apart name j (in_old name j g) h in
          subst₂ (λ t m. PathsApart t m j) (sym (ap (λ c. c.target_path) ready.2))
            (sym (open_instance-file setup (blob id) mine w.disk d1 i joins.truth opened)) a

      not_itself : text_eq id id ≡ false → ⊥
      not_itself h = let z = text_eq_refl id in absurd cc

      joined-AllApart : AllApart joined
      joined-AllApart a b x y ga gb ne =
          by_name
            (λ n j.
              (m : Text) (k : Instance)
              → get m joined ≡ some k
              → text_eq n m ≡ false
              → FilesApart j k)
            (by_name (λ m k. text_eq id m ≡ false → FilesApart i k) (λ h. absurd (not_itself h))
              (λ m k g h _. new_apart m k g h))
            (λ n j gn hn.
              by_name (λ m k. text_eq n m ≡ false → FilesApart j k)
                (λ _. FilesApart-sym i j (new_apart n j gn hn))
                (λ m k gm _ h. before.apart n m j k gn gm h))
            a x ga b y gb ne

      pub joined-Sound : Sound setup blob joined
      joined-Sound = record {
        serves = record {
          serves =
              by_name (λ n j. Serves (blob n) (state_of j joined))
                (Serves-elsewhere (blob id) i d1 v.disk v.calls v.calls ready.0
                  (ap (λ d. d.files i.config.target_path) disk)
                  (ap (λ d. d.files i.range_map.file) disk))
                (λ n j g _. before.serves.serves n j g);
          honest =
              by_name (λ n j. IsHonest (blob n) (setup.backend j.config))
                (subst (λ c. IsHonest (blob id) (setup.backend c)) (sym ready.2) joins.honest)
                (λ n j g _. before.serves.honest n j g);
        };
        apart = joined-AllApart;
      }

    add_instance-Sound : Sound setup blob (add_instance setup id mine w).1
    add_instance-Sound =
        let a : World = after_open setup id mine w in
        let m = after_mark setup id mine w in
        let disk = mark_instance-disk id mine a in
        elim (Result-cases (open_instance setup mine w.disk).0) [
          | inr (e, q) ↦ rw (open_fails setup id mine w e q) (old-Sound a refl refl)
          | inl (i, q) ↦ elim (Result-cases m.0) [
            | inr (e, h) ↦
                rw (mark_fails setup id mine w e i q h) (old-Sound m.1 (kept setup id mine w) disk)
            | inl (tt, h) ↦
                rw (adds setup id mine w i q h)
                  (joined-Sound i (ap (λ r. (r, d1)) q) m.1 (kept setup id mine w) disk)
          ]
        ]

  register_checked-Sound :
      (id : Text) (config : InstanceConfig) (w : World)
      → Sound setup blob w
      → (get id w ≡ none → Joins setup blob id config w)
      → Sound setup blob (register_checked setup id (named id config) w).1
  register_checked-Sound id config w s joins = elim (Option-cases (get id w)) [
    | inl q ↦
        rw (free setup id (named id config) w q) (add_instance-Sound id config w s q (joins q))
    | inr (i, q) ↦ elim (Bool-cases (config_eq i.config (named id config))) [
      | inl h ↦ rw (same_again setup id (named id config) w i q h) s
      | inr h ↦ rw (conflicts setup id (named id config) w i q h) s
    ]
  ]

  pub register-Sound :
      (id : Text) (config : InstanceConfig) (w : World)
      → Sound setup blob w
      → (get id w ≡ none → Joins setup blob id config w)
      → Sound setup blob (register setup id config w).1
  unfolding register
  register-Sound id config w s joins = elim (Result-cases (check_config setup config)) [
    | inr (e, q) ↦ rw q s
    | inl (tt, q) ↦ rw q (register_checked-Sound id config w s joins)
  ]
