-- ===== src/Registry/Changes.antt =====
-- `InstanceRegistry::register` and `unregister` on every outcome.
use lazyd.Base.{
  ◌≡◌, refl, ap, ◌∙◌, ◌⊎◌, inl, inr, Text, text, text_eq, text_eq_sound, text_eq_refl, true, false,
  ◌&&◌, Option, none, some, Bool-cases, Option-cases, EqLaws, lookup, insert, remove,
  lookup-insert_same, lookup-insert_other, lookup-remove_same, lookup-remove_other,
}
use lazyd.Errors.{conflict, Error, Result, ok, err}
use lazyd.Exec.{Result-cases}
use lazyd.Disk.{Disk}
use lazyd.RangeMap.{RangeMap}
use lazyd.Instance.{InstanceConfig, Instance}
use lazyd.Fanotify.Marks.{Marks, mark, unmark}
use lazyd.Registry.{
  Setup, World, get, config_eq, is_fanotify, put_marks, open_map, new_instance, open_instance,
  mark_instance, add_instance, check_config, register_checked, register, unmark_removed, unregister,
}
use lazyd.Registry.Config.{config_eq_sound}

pub text-EqLaws : EqLaws text_eq
text-EqLaws = record { same = text_eq_refl; sound = text_eq_sound }

-- A change of the instances that is at most that of one name.
abbrev pub OthersKept : Text → World → World → Type 0
OthersKept instance_id w v =
    (other : Text) → text_eq instance_id other ≡ false → get other v ≡ get other w

put_marks-instances : (m : Result Marks) (w : World) → (put_marks m w).1.instances ≡ w.instances
put_marks-instances (ok m) w = refl
put_marks-instances (err e) w = refl

module _ (setup : Setup) where
  mark_instance-instances :
      (instance_id : Text) (config : InstanceConfig) (w : World)
      → (mark_instance setup instance_id config w).1.instances ≡ w.instances
  unfolding mark_instance
  mark_instance-instances instance_id config w =
      elim (Bool-cases (is_fanotify config.trigger_mode && setup.has_fanotify)) [
        | inl h ↦ rw h (
            put_marks-instances (mark setup.kernel w.disk instance_id config.target_path w.marks) w)
        | inr h ↦ rw h refl
      ]

  open_instance-cases :
      (config : InstanceConfig) (d : Disk)
      → ((e : Error) × ((open_instance setup config d).0 ≡ err e))
        ⊎ ((m : RangeMap) × ((open_instance setup config d).0 ≡ ok (new_instance setup config m)))
  unfolding open_instance
  open_instance-cases config d = elim (Result-cases (open_map setup config d).0) [
    | inr (e, q) ↦ inl (e, rw q)
    | inl (m, q) ↦ inr (m, rw q)
  ]

  -- How a registration of `config` under `instance_id` ends: an error, with the instances as they
  -- were; or the name has an instance with the configuration, and every other name has what it had.
  pub data Registered (instance_id : Text) (config : InstanceConfig) (w : World)
      (r : Result (Unit {0})) (v : World) : Type 0 where
    failed :
        (e : Error) → r ≡ err e → v.instances ≡ w.instances → Registered instance_id config w r v
    present :
        (i : Instance)
        → r ≡ ok tt
        → get instance_id v ≡ some i
        → i.config ≡ config
        → OthersKept instance_id w v
        → Registered instance_id config w r v

  module _ (instance_id : Text) (config : InstanceConfig) (w : World) where
    abbrev pub after_open : World
    after_open = record w { disk = (open_instance setup config w.disk).1 }

    abbrev pub after_mark : Result (Unit {0}) × World
    after_mark = mark_instance setup instance_id config after_open

    pub open_fails :
        (e : Error)
        → (open_instance setup config w.disk).0 ≡ err e
        → add_instance setup instance_id config w ≡ (err e, after_open)
    unfolding add_instance
    open_fails e q = rw q

    pub mark_fails :
        (e : Error) (i : Instance)
        → (open_instance setup config w.disk).0 ≡ ok i
        → after_mark.0 ≡ err e
        → add_instance setup instance_id config w ≡ (err e, after_mark.1)
    unfolding add_instance
    mark_fails e i q h = rw (q, h)

    pub adds :
        (i : Instance)
        → (open_instance setup config w.disk).0 ≡ ok i
        → after_mark.0 ≡ ok tt
        → add_instance setup instance_id config w ≡ (
          ok tt,
          record after_mark.1 { instances = insert text_eq instance_id i after_mark.1.instances },
        )
    unfolding add_instance
    adds i q h = rw (q, h)

    pub kept : after_mark.1.instances ≡ w.instances
    kept = mark_instance-instances instance_id config after_open

    added :
        (i : Instance)
        → i.config ≡ config
        → Registered instance_id config w (ok tt) (record after_mark.1 {
          instances = insert text_eq instance_id i after_mark.1.instances;
        })
    unfolding get
    added i q =
        present i refl (lookup-insert_same text_eq text-EqLaws instance_id i after_mark.1.instances)
          q
          (λ other h.
            lookup-insert_other text_eq text-EqLaws instance_id other i after_mark.1.instances h
            ∙ ap (λ m. lookup text_eq other m) kept)

    pub add_instance-Registered :
        Registered instance_id config w
          (add_instance setup instance_id config w).0
          (add_instance setup instance_id config w).1
    add_instance-Registered = elim (open_instance-cases config w.disk) [
      | inl (e, q) ↦ rw (open_fails e q) (failed e refl refl)
      | inr (m, q) ↦ elim (Result-cases after_mark.0) [
        | inr (e, h) ↦ rw (mark_fails e (new_instance setup config m) q h) (failed e refl kept)
        | inl (tt, h) ↦
            rw (adds (new_instance setup config m) q h)
              (added (new_instance setup config m) (unfold new_instance in refl))
      ]
    ]

    pub free :
        get instance_id w ≡ none
        → register_checked setup instance_id config w ≡ add_instance setup instance_id config w
    unfolding register_checked
    free q = rw (q, register_checked)

    pub same_again :
        (i : Instance)
        → get instance_id w ≡ some i
        → config_eq i.config config ≡ true
        → register_checked setup instance_id config w ≡ (ok tt, w)
    unfolding register_checked
    same_again i q h = rw (q, register_checked, h)

    pub conflicts :
        (i : Instance)
        → get instance_id w ≡ some i
        → config_eq i.config config ≡ false
        → register_checked setup instance_id config w
          ≡ (err (conflict (text "instance already exists with different config")), w)
    unfolding register_checked
    conflicts i q h = rw (q, register_checked, h)

    register_checked-Registered :
        Registered instance_id config w
          (register_checked setup instance_id config w).0
          (register_checked setup instance_id config w).1
    register_checked-Registered = elim (Option-cases (get instance_id w)) [
      | inl q ↦ rw (free q) add_instance-Registered
      | inr (i, q) ↦ elim (Bool-cases (config_eq i.config config)) [
        | inl h ↦
            rw (same_again i q h)
              (present i refl q (config_eq_sound i.config config h) (λ other _. refl))
        | inr h ↦
            rw (conflicts i q h)
              (failed (conflict (text "instance already exists with different config")) refl refl)
      ]
    ]

  -- register of a configuration under a name fails and leaves the instances as they were; or
  -- succeeds, and then the name has an instance with that configuration, its name filled in, and
  -- every other name has what it had.
  pub register-Registered :
      (instance_id : Text) (config : InstanceConfig) (w : World)
      → Registered instance_id
          (record config { instance_id = instance_id })
          w
          (register setup instance_id config w).0
          (register setup instance_id config w).1
  unfolding register
  register-Registered instance_id config w = elim (Result-cases (check_config setup config)) [
    | inr (e, q) ↦ rw q (failed e refl refl)
    | inl (tt, q) ↦
        rw q
          (register_checked-Registered instance_id (record config { instance_id = instance_id }) w)
  ]

  pub unmark_removed-instances :
      (o : Option Instance) (w : World) → (unmark_removed setup o w).1.instances ≡ w.instances
  unfolding unmark_removed
  unmark_removed-instances none w = refl
  unmark_removed-instances (some i) w =
      elim (Bool-cases (setup.has_fanotify && is_fanotify i.config.trigger_mode)) [
        | inl h ↦
            rw h (put_marks-instances (unmark setup.kernel w.disk i.config.target_path w.marks) w)
        | inr h ↦ rw h refl
      ]

  -- After unregister, also when it ends with an error, the name has no instance, and every other
  -- name has what it had.
  pub unregister_lem :
      (instance_id : Text) (w : World)
      → (get instance_id (unregister setup instance_id w).1 ≡ none)
        × OthersKept instance_id w (unregister setup instance_id w).1
  unfolding unregister get
  unregister_lem instance_id w =
      let gone : World = record w { instances = remove text_eq instance_id w.instances } in
      let q = unmark_removed-instances (get instance_id w) gone in
      (
        ap (λ m. lookup text_eq instance_id m) q
            ∙ lookup-remove_same text_eq text-EqLaws instance_id w.instances,
        λ other h.
            ap (λ m. lookup text_eq other m) q
            ∙ lookup-remove_other text_eq text-EqLaws instance_id other w.instances h,
      )
