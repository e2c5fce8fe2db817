-- ===== src/Daemon/Calls.antt =====
-- A call of `ensure_range` and a round of the event loop keep the daemon sound.
use lazyd.Base.{
  Bytes, ◌⊎◌, Option, none, inl, inr, refl, ℕ, ◌≡◌, subst, inl, inr, Text, text_eq, some,
  Option-cases, List, [], ◌∷◌, insert,
}
use lazyd.Errors.{Result, ok, err}
use lazyd.Instance.{Instance, InstanceState, ensure_range}
use lazyd.Instance.Pages.Kept.{Kept, ensure_range-Kept}
use lazyd.Fanotify.{FanotifyEvent, Parse, panics, out_of_fuel, returns}
use lazyd.Fanotify.Reads.{parse_events_lem}
use lazyd.Fanotify.Marks.{instance_id_for_fd}
use lazyd.Fanotify.Loop.{
  LoopState, decide, handle_event, handle_events, handle_buffer, handle_read, run_event_loop,
  finish,
}
use lazyd.Registry.{Setup, World, get, ensure}
use lazyd.Registry.Serving.{state_of, eq_missing, eq_waits, eq_returns}
use lazyd.Registry.Apart.{after, after-AllApart, after-WorldServes}
use lazyd.Daemon.{Sound}

pub Parse-cases :
    (p : Parse (Option LoopState))
    → ((l : LoopState) × (p ≡ returns (some l)))
      ⊎ ((p ≡ returns none) ⊎ ((p ≡ panics) ⊎ (p ≡ out_of_fuel)))
Parse-cases (returns (some l)) = inl (l, refl)
Parse-cases (returns none) = inr (inl refl)
Parse-cases panics = inr (inr (inl refl))
Parse-cases out_of_fuel = inr (inr (inr refl))

module _ (setup : Setup) (blob : Text → ℕ → ℕ) where
  pub Kept-Sound :
      (id : Text) (w : World) (i : Instance)
      → get id w ≡ some i
      → (t : InstanceState) → Kept (blob id) (state_of i w) t
      → Sound setup blob w
      → Sound setup blob (record w {
        instances = insert text_eq id t.inst w.instances;
        disk = t.disk;
        calls = t.calls;
      })
  Kept-Sound id w i q t k s = record {
    serves = after-WorldServes id w i q t k.local setup blob s.serves s.apart k.serves;
    apart = after-AllApart id w i q t k.local s.apart;
  }

  pub ensure-Sound :
      (id : Text) (offset len : ℕ) (w v : World) (r : Result (Unit {0}))
      → ensure setup id offset len w ≡ some (r, v)
      → Sound setup blob w
      → Sound setup blob v
  ensure-Sound id offset len w v r h s = elim (Option-cases (get id w)) [
    | inl q ↦
        let e = eq_missing setup blob id offset len w q in
        let same : w ≡ v = cc in subst (Sound setup blob) same s
    | inr (i, q) ↦
        elim (Option-cases (ensure_range (setup.backend i.config) offset len (state_of i w))) [
          | inl z ↦ let e = eq_waits setup blob id offset len w i q z in cc
          | inr ((x, t), z) ↦
              let e = eq_returns setup blob id offset len w i q x t z in
              let k =
                ensure_range-Kept (blob id) (setup.backend i.config) (s.serves.honest id i q)
                  (state_of i w) (s.serves.serves id i q) offset len x t z in
              let same : after id w i q t k.local ≡ v = cc in
              subst (Sound setup blob) same (Kept-Sound id w i q t k s)
        ]
  ]

  -- The event loop
  decide-Sound :
      (event : FanotifyEvent) (w v : World) (response : ℕ)
      → decide setup event w ≡ some (response, v)
      → Sound setup blob w
      → Sound setup blob v
  unfolding decide
  decide-Sound event w v response h s =
      elim (Option-cases (instance_id_for_fd setup.kernel event.fd w.marks)) [
        | inl q ↦
            let z = rw (q, decide) at h in let same : w ≡ v = cc in subst (Sound setup blob) same s
        | inr (id, q) ↦ elim (Option-cases (ensure setup id event.range.offset event.range.len w)) [
          | inl e ↦ let z = rw (q, decide, e) at h in cc
          | inr ((r, u), e) ↦
              let z = rw (q, decide, e) at h in
              let same : u ≡ v = cc in
              subst (Sound setup blob) same
                (ensure-Sound id event.range.offset event.range.len w u r e s)
        ]
      ]

  handle_event-Sound :
      (event : FanotifyEvent) (l k : LoopState)
      → handle_event setup event l ≡ some k
      → Sound setup blob l.world
      → Sound setup blob k.world
  unfolding handle_event finish
  handle_event-Sound event l k h s = elim (Option-cases (decide setup event l.world)) [
    | inl q ↦ let z = rw (q, handle_event) at h in cc
    | inr ((response, v), q) ↦
        let z = rw (q, handle_event) at h in
        let same : finish event.fd response (record l { world = v }) ≡ k = cc in
        subst (λ x. Sound setup blob x.world) same (decide-Sound event l.world v response q s)
  ]

  pub handle_events-Sound :
      (events : List FanotifyEvent) (l k : LoopState)
      → handle_events setup events l ≡ some k
      → Sound setup blob l.world
      → Sound setup blob k.world
  unfolding handle_events
  handle_events-Sound [] l k h s =
      let same : l ≡ k = cc in subst (λ x. Sound setup blob x.world) same s
  handle_events-Sound (event ∷ events) l k h s = elim (Option-cases (handle_event setup event l)) [
    | inl q ↦ let z = rw (q, handle_events) at h in cc
    | inr (m, q) ↦
        handle_events-Sound events m k (rw (q, handle_events) at h)
          (handle_event-Sound event l m q s)
  ]

  handle_read-Sound :
      (read : Result Bytes) (l k : LoopState)
      → handle_read setup read l ≡ returns (some k)
      → Sound setup blob l.world
      → Sound setup blob k.world
  unfolding handle_read handle_buffer
  handle_read-Sound (err e) l k h s =
      let same : l ≡ k = cc in subst (λ x. Sound setup blob x.world) same s
  handle_read-Sound (ok buf) l k h s =
      let (events, q) = parse_events_lem buf in
      let z = rw (q, handle_buffer) at h in
      let done : handle_events setup events l ≡ some k = cc in handle_events-Sound events l k done s

  pub run_event_loop-Sound :
      (reads : List (Result Bytes)) (l k : LoopState)
      → run_event_loop setup reads l ≡ returns (some k)
      → Sound setup blob l.world
      → Sound setup blob k.world
  unfolding run_event_loop
  run_event_loop-Sound [] l k h s =
      let same : l ≡ k = cc in subst (λ x. Sound setup blob x.world) same s
  run_event_loop-Sound (read ∷ reads) l k h s = elim (Parse-cases (handle_read setup read l)) [
    | inl (m, q) ↦
        run_event_loop-Sound reads m k (rw (q, run_event_loop) at h)
          (handle_read-Sound read l m q s)
    | inr (inl q) ↦ let z = rw (q, run_event_loop) at h in cc
    | inr (inr (inl q)) ↦ let z = rw (q, run_event_loop) at h in cc
    | inr (inr (inr q)) ↦ let z = rw (q, run_event_loop) at h in cc
  ]
