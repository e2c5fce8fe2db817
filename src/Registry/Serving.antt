-- ===== src/Registry/Serving.antt =====
-- A daemon whose instances serve their blobs.
use lazyd.Base.{
  ℕ, ◌+◌, ◌≤◌, ◌<◌, ◌≡◌, refl, inl, inr, Text, text, text_eq, none, some, Option-cases, insert,
}
use lazyd.Errors.{Error, Result, ok, err, not_found}
use lazyd.Instance.{Instance, InstanceState, ensure_range}
use lazyd.Instance.Write.{byte_at}
use lazyd.Instance.Fetch.{Serves, IsHonest}
use lazyd.Instance.Outcome.{Ensured, sleeps, returns, ensure_range_lem}
use lazyd.Registry.{Setup, World, get, ensure, ensure_instance}

abbrev pub state_of : Instance → World → InstanceState
state_of i w = record { inst = i; disk = w.disk; calls = w.calls }

-- The instance with the name `id` serves the blob `blob id`, and its backend is honest.
pub record WorldServes (setup : Setup) (blob : Text → ℕ → ℕ) (w : World) : Type 0 where
  pub serves : (id : Text) (i : Instance) → get id w ≡ some i → Serves (blob id) (state_of i w)
  pub honest :
      (id : Text) (i : Instance) → get id w ≡ some i → IsHonest (blob id) (setup.backend i.config)

-- After a call that returned `r`: if it is `ok`, the bytes of the range are in the cache file of
-- the instance of that name.
abbrev pub InCache : (ℕ → ℕ) → Instance → ℕ → ℕ → World → Type 0
InCache blob i offset len v =
    (k : ℕ) → offset ≤ k → k < offset + len → byte_at v.disk i.config.target_path k ≡ blob k

pub data EnsuredIn (setup : Setup) (blob : Text → ℕ → ℕ) (id : Text) (offset len : ℕ) (w : World)
    : Type 0 where
  waits : ensure setup id offset len w ≡ none → EnsuredIn setup blob id offset len w
  fails :
      (e : Error) (v : World)
      → ensure setup id offset len w ≡ some (err e, v)
      → EnsuredIn setup blob id offset len w
  succeeds :
      (i : Instance) (v : World)
      → get id w ≡ some i
      → ensure setup id offset len w ≡ some (ok tt, v)
      → InCache (blob id) i offset len v
      → EnsuredIn setup blob id offset len w

module _ (setup : Setup) (blob : Text → ℕ → ℕ) (id : Text) (offset len : ℕ) (w : World) where
  pub eq_missing :
      get id w ≡ none
      → ensure setup id offset len w ≡ some (err (not_found (text "instance not found")), w)
  unfolding ensure
  eq_missing q = rw (q, ensure)

  module _ (i : Instance) (q : get id w ≡ some i) where
    pub eq_waits :
        ensure_range (setup.backend i.config) offset len (state_of i w) ≡ none
        → ensure setup id offset len w ≡ none
    unfolding ensure ensure_instance
    eq_waits h = rw (q, ensure, h, ensure_instance)

    abbrev pub put : InstanceState → World
    put t = record w {
      instances = insert text_eq id t.inst w.instances;
      disk = t.disk;
      calls = t.calls;
    }

    pub eq_returns :
        (r : Result (Unit {0})) (t : InstanceState)
        → ensure_range (setup.backend i.config) offset len (state_of i w) ≡ some (r, t)
        → ensure setup id offset len w ≡ some (r, put t)
    unfolding ensure ensure_instance
    eq_returns r t h = rw (q, ensure, h, ensure_instance)

    returned :
        (r : Result (Unit {0})) (t : InstanceState)
        → ensure_range (setup.backend i.config) offset len (state_of i w) ≡ some (r, t)
        → Ensured (blob id) offset len (state_of i w) r t
        → EnsuredIn setup blob id offset len w
    returned (err e) t h en = fails e (put t) (eq_returns (err e) t h)
    returned (ok tt) t h en =
        succeeds i (put t) q (eq_returns (ok tt) t h) (λ k lo hi. (en.served refl k lo hi).1)

    called : WorldServes setup blob w → EnsuredIn setup blob id offset len w
    called v =
        elim (ensure_range_lem (blob id) (setup.backend i.config) (v.honest id i q) offset len
          (state_of i w) (v.serves id i q)) [
            | sleeps _ h _ _ ↦ waits (eq_waits h)
            | returns r t h en ↦ returned r t h en
          ]

  -- In a daemon whose instances serve their blobs, a call of `ensure_range` under a name waits,
  -- fails, or the name has an instance and then the bytes of the range are in its cache file.
  pub ensure_lem : WorldServes setup blob w → EnsuredIn setup blob id offset len w
  ensure_lem v = elim (Option-cases (get id w)) [
    | inl q ↦ fails (not_found (text "instance not found")) w (eq_missing q)
    | inr (i, q) ↦ called i q v
  ]
