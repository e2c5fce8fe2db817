-- ===== src/Registry/Names/Refines.antt =====
-- The registry refines the names: each operation does what a client may rely on.
use mathlib.Core.Path.{fun_ext}
use lazyd.Base.{
  ℕ, ◌≡◌, refl, ap, sym, subst, ◌∙◌, inl, inr, Text, text, text_eq, text_eq_sound, text_eq_refl,
  Bool, true, false, Option, none, some, List, [], ◌∷◌, Bool-cases, Option-cases, lookup, insert,
  lookup-insert_same, lookup-insert_other, ◌==◌, arith,
}
use lazyd.Errors.{Result, ok, err, not_found}
use lazyd.Exec.{Result-cases}
use lazyd.Remote.{RemoteSource, oci_registry}
use lazyd.Instance.{
  TriggerMode, fanotify, external, InstanceConfig, Instance, InstanceState, ensure_range,
}
use lazyd.Instance.Fixed.{ensure_range-Local}
use lazyd.Registry.{
  Setup, World, get, config_eq, option_eq, source_eq, auth_eq, mode_eq, check_config,
  register_checked, register, unregister, ensure, ensure_instance,
}
use lazyd.Registry.Changes.{
  OthersKept, Registered, failed, present, free, same_again, conflicts, add_instance-Registered,
  unregister_lem, text-EqLaws,
}
use lazyd.Registry.Config.{config_eq_sound}
use lazyd.Registry.Names.{
  Names, assign, config_of, names, named, Op, registers, unregisters, ensures, Allowed, taken,
  again, conflicting, invalid, unopened, freed, unknown, answered, step, Ran, Permitted, stop, next,
}

option_eq_refl :
    {A : Type 0} (eq : A → A → Bool)
    → ((a : A) → eq a a ≡ true)
    → (a : Option A) → option_eq eq a a ≡ true
option_eq_refl eq same none = refl
option_eq_refl eq same (some a) = same a

source_eq_refl : (a : RemoteSource) → source_eq a a ≡ true
source_eq_refl (oci_registry i h) = rw (text_eq_refl i, option_eq_refl text_eq text_eq_refl h) refl

mode_eq_refl : (a : TriggerMode) → mode_eq a a ≡ true
mode_eq_refl fanotify = refl
mode_eq_refl external = refl

==_refl : (n : ℕ) → (n == n) ≡ true
==_refl n = ground arith

config_eq_refl : (a : InstanceConfig) → config_eq a a ≡ true
unfolding config_eq
config_eq_refl a =
    rw
      (
        text_eq_refl a.instance_id,
        text_eq_refl a.target_path,
        text_eq_refl a.blob.digest,
        ==_refl a.blob.size,
        option_eq_refl text_eq text_eq_refl a.blob.media_type,
        source_eq_refl a.source,
        option_eq_refl auth_eq (λ c. rw (text_eq_refl c.username, text_eq_refl c.secret) refl)
            a.auth,
        ==_refl a.fetch.unit_bytes,
        mode_eq_refl a.trigger_mode,
      )
      refl

-- The names behind a change of the instances.
names-same : (w v : World) → v.instances ≡ w.instances → names v ≡ names w
unfolding get
names-same w v q = fun_ext λ id. ap (λ m. config_of (lookup text_eq id m)) q

names-assign :
    (id : Text) (o : Option Instance) (w v : World)
    → get id v ≡ o
    → OthersKept id w v
    → names v ≡ assign (names w) id (config_of o)
names-assign id o w v here others = fun_ext λ name. elim (Bool-cases (text_eq id name)) [
  | inr h ↦ rw h (ap config_of (others name h))
  | inl h ↦ rw h (ap (λ n. config_of (get n v)) (sym (text_eq_sound id name h)) ∙ ap config_of here)
]

assign_same : (f : Names) (id : Text) (c : Option InstanceConfig) → f id ≡ c → assign f id c ≡ f
assign_same f id c q = fun_ext λ name. elim (Bool-cases (text_eq id name)) [
  | inr h ↦ rw h refl
  | inl h ↦ rw h (sym q ∙ ap f (text_eq_sound id name h))
]

module _ (setup : Setup) (w : World) where
  -- The answer and the names that an operation leaves.
  abbrev Does : Op → Result (Unit {0}) × World → Type 0
  Does op (r, v) = Allowed setup (names w) op r (names v)

  with_names :
      (op : Op) (r : Result (Unit {0})) (v : World) (g : Names)
      → names v ≡ g
      → Allowed setup (names w) op r g
      → Allowed setup (names w) op r (names v)
  with_names op r v g q a = subst (Allowed setup (names w) op r) (sym q) a

  module _ (id : Text) (config : InstanceConfig) where
    added-Allowed :
        (r : Result (Unit {0})) (v : World)
        → get id w ≡ none
        → Registered setup id (named id config) w r v
        → Allowed setup (names w) (registers id config) r (names v)
    added-Allowed r v q (failed e h same) =
        subst (λ x. Allowed setup (names w) (registers id config) x (names v)) (sym h)
          (with_names _ (err e) v (names w) (names-same w v same)
            (unopened id config e (ap config_of q)))
    added-Allowed r v q (present i h here same others) =
        subst (λ x. Allowed setup (names w) (registers id config) x (names v)) (sym h)
          (with_names _ (ok tt) v _
            (names-assign id (some i) w v here others ∙ ap (λ c. assign (names w) id (some c)) same)
            (taken id config (ap config_of q)))

    checked-Allowed : Does (registers id config) (register_checked setup id (named id config) w)
    checked-Allowed = elim (Option-cases (get id w)) [
      | inl q ↦
          rw (free setup id (named id config) w q)
            (added-Allowed _ _ q (add_instance-Registered setup id (named id config) w))
      | inr (i, q) ↦ elim (Bool-cases (config_eq i.config (named id config))) [
        | inl h ↦ rw (same_again setup id (named id config) w i q h) (
            again id config
              (ap config_of q ∙ ap some (config_eq_sound i.config (named id config) h)))
        | inr h ↦ rw (conflicts setup id (named id config) w i q h) (
            conflicting id config i.config (ap config_of q) (λ e.
              let z = config_eq_refl (named id config) in
              let t = subst (λ c. config_eq c (named id config) ≡ false) e h in cc))
      ]
    ]

    register-Allowed : Does (registers id config) (register setup id config w)
    unfolding register
    register-Allowed = elim (Result-cases (check_config setup config)) [
      | inr (e, q) ↦ rw q (invalid id config e q)
      | inl (u, q) ↦ rw q checked-Allowed
    ]

  unregister-Allowed : (id : Text) → Does (unregisters id) (unregister setup id w)
  unregister-Allowed id =
      let (gone, others) = unregister_lem setup id w in
      with_names _ _ (unregister setup id w).1 _
        (names-assign id none w (unregister setup id w).1 gone others)
        (freed id (unregister setup id w).0)

  module _ (id : Text) (offset len : ℕ) where
    ensured-Allowed :
        (i : Instance) (r : Result (Unit {0})) (v : World)
        → get id w ≡ some i
        → ensure_instance setup id i offset len w ≡ some (r, v)
        → Allowed setup (names w) (ensures id offset len) r (names v)
    unfolding ensure_instance get
    ensured-Allowed i r v q h =
        let s : InstanceState = record { inst = i; disk = w.disk; calls = w.calls } in
        elim (Option-cases (ensure_range (setup.backend i.config) offset len s)) [
          | inl none_yet ↦ let z = rw (none_yet, ensure_instance) at h in cc
          | inr ((x, t), done) ↦
              let z = rw (done, ensure_instance) at h in
              let put : World = record w {
                instances = insert text_eq id t.inst w.instances;
                disk = t.disk;
                calls = t.calls;
              } in
              let same : put ≡ v = cc in
              let config =
                (ensure_range-Local (setup.backend i.config) offset len s t x done).config in
              let kept : names v ≡ names w =
                ap names (sym same)
                ∙ names-assign id (some t.inst) w put
                    (lookup-insert_same text_eq text-EqLaws id t.inst w.instances)
                    (λ other ne.
                      lookup-insert_other text_eq text-EqLaws id other t.inst w.instances ne)
                ∙ assign_same (names w) id (some t.inst.config)
                    (ap config_of q ∙ ap some (sym config)) in
              with_names (ensures id offset len) r v (names w) kept
                (answered id offset len i.config r (ap config_of q))
        ]

    ensure-Allowed :
        (r : Result (Unit {0})) (v : World)
        → ensure setup id offset len w ≡ some (r, v)
        → Allowed setup (names w) (ensures id offset len) r (names v)
    unfolding ensure
    ensure-Allowed r v h = elim (Option-cases (get id w)) [
      | inl q ↦
          let z = rw (q, ensure) at h in
          let same : w ≡ v = cc in
          let value : err (not_found (text "instance not found")) ≡ r = cc in
          subst (λ x. Allowed setup (names w) (ensures id offset len) x (names v)) value
            (with_names (ensures id offset len) _ v (names w) (ap names (sym same))
              (unknown id offset len (ap config_of q)))
      | inr (i, q) ↦ ensured-Allowed i r v q (rw (q, ensure) at h)
    ]

  step-Allowed :
      (op : Op) (r : Result (Unit {0})) (v : World)
      → step setup op w ≡ some (r, v)
      → Allowed setup (names w) op r (names v)
  step-Allowed (registers id config) r v h =
      let same : register setup id config w ≡ (r, v) = cc in
      subst (Does (registers id config)) same (register-Allowed id config)
  step-Allowed (unregisters id) r v h =
      let same : unregister setup id w ≡ (r, v) = cc in
      subst (Does (unregisters id)) same (unregister-Allowed id)
  step-Allowed (ensures id offset len) r v h = ensure-Allowed id offset len r v h

-- Each sequence of register, unregister and ensure_range calls that all return is one that a map
-- of names to configurations permits: a free name may be taken or the registration fails; the same
-- configuration again succeeds and a different one is a conflict, without a change; an
-- unregistered name is free whatever the answer; ensure_range on a name that is free is not found,
-- and it changes no name or configuration.
pub registry_refines :
    (setup : Setup) (w v : World) (ops : List (Op × Result (Unit {0})))
    → Ran setup w ops v
    → Permitted setup (names w) ops (names v)
registry_refines setup w v [] stop = stop
registry_refines setup w u ((op, r) ∷ ops) (next _ h ran) =
    next (step-Allowed setup w op r _ h) (registry_refines setup _ u ops ran)
