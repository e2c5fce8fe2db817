-- ===== src/Control/Puts.antt =====
-- A request to register an instance, from its path and body to the registry.
use lazyd.Base.{◌≡◌, refl, ap, ◌∙◌, inl, inr, Text, Bytes, none, some, Option-cases}
use lazyd.Errors.{Error, Result, ok, err}
use lazyd.Exec.{Result-cases}
use lazyd.Instance.{InstanceConfig, Instance}
use lazyd.Registry.{World, Setup, get, register}
use lazyd.Registry.Changes.{Registered, failed, present, OthersKept, register-Registered}
use lazyd.Control.{ControlJson, empty, instance_id, put_instance, unknown}

-- How a PUT ends: with an error, and the instances as they were; or with status 204, and then the
-- path names an instance with the configuration of the body.
pub data Put (setup : Setup) (codec : ControlJson) (dir path : Text) (body : Bytes) (w : World)
    : Type 0 where
  refused :
      (e : Error)
      → (put_instance setup codec dir path body w).0 ≡ err e
      → (put_instance setup codec dir path body w).1.instances ≡ w.instances
      → Put setup codec dir path body w
  created :
      (id : Text) (config : InstanceConfig) (i : Instance)
      → instance_id path ≡ some id
      → codec.config body ≡ ok config
      → (put_instance setup codec dir path body w).0 ≡ ok (empty 204)
      → get id (put_instance setup codec dir path body w).1 ≡ some i
      → i.config ≡ record config { instance_id = id }
      → OthersKept id w (put_instance setup codec dir path body w).1
      → Put setup codec dir path body w

module _ (setup : Setup) (codec : ControlJson) (dir path : Text) (body : Bytes) (w : World) where
  no_name : instance_id path ≡ none → put_instance setup codec dir path body w ≡ (err unknown, w)
  unfolding put_instance
  no_name q = rw (q, put_instance) refl

  no_config :
      (id : Text) (e : Error)
      → instance_id path ≡ some id
      → codec.config body ≡ err e
      → put_instance setup codec dir path body w ≡ (err e, w)
  unfolding put_instance
  no_config id e q h = rw (q, put_instance, h) refl

  module _ (id : Text) (config : InstanceConfig) (q : instance_id path ≡ some id)
      (h : codec.config body ≡ ok config) where
    abbrev outcome : Result (Unit {0}) × World
    outcome = register setup id (record config { instance_id = id }) w

    register_fails :
        (e : Error)
        → outcome.0 ≡ err e
        → put_instance setup codec dir path body w ≡ (err e, outcome.1)
    unfolding put_instance
    register_fails e r = rw (q, put_instance, h, r) refl

    registers :
        outcome.0 ≡ ok tt → put_instance setup codec dir path body w ≡ (ok (empty 204), outcome.1)
    unfolding put_instance
    registers r = rw (q, put_instance, h, r) refl

    registered :
        Registered setup id (record config { instance_id = id }) w outcome.0 outcome.1
        → Put setup codec dir path body w
    registered (failed e r same) =
        refused e (ap (λ x. x.0) (register_fails e r))
          (ap (λ x. x.1.instances) (register_fails e r) ∙ same)
    registered (present i r g c others) =
        created id config i q h (ap (λ x. x.0) (registers r))
          (ap (λ x. get id x.1) (registers r) ∙ g) c
          (λ other ne. ap (λ x. get other x.1) (registers r) ∙ others other ne)

  -- A PUT ends with an error and leaves the instances as they were; or its path names an instance,
  -- its body reads as a configuration, the status is 204, the name has an instance with that
  -- configuration, its name filled in, and every other name has what it had.
  pub put_instance_lem : Put setup codec dir path body w
  put_instance_lem = elim (Option-cases (instance_id path)) [
    | inl q ↦ refused unknown (ap (λ x. x.0) (no_name q)) (ap (λ x. x.1.instances) (no_name q))
    | inr (id, q) ↦ elim (Result-cases (codec.config body)) [
      | inr (e, h) ↦
          refused e (ap (λ x. x.0) (no_config id e q h))
            (ap (λ x. x.1.instances) (no_config id e q h))
      | inl (config, h) ↦
          registered id config q h
            (register-Registered setup id (record config { instance_id = id }) w)
    ]
  ]
