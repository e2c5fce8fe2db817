-- ===== src/Instance/Tasks/Alone/Whole.antt =====
-- `store`, `fetch` and the whole of `ensure_range`, as the turns of one call.
use lazyd.Base.{ℕ, ◌≡◌, refl, subst, inl, inr, Bytes, none, some, true, length, ◌==◌, Bool-cases}
use lazyd.Errors.{Result, ok, err}
use lazyd.Exec.{Result-cases}
use lazyd.RangeMap.{is_range_ready}
use lazyd.Remote.{RemoteBackend}
use lazyd.Instance.{
  InstanceState, Range, write_all_at, admit, is_busy, read_range, store, fetch, ensure_range,
  reserve_inflight, release_inflight,
}
use lazyd.Instance.Fetch.{store-short, store-failed, store-written}
use lazyd.Instance.Ensure.{fetch-ready, fetch-failed, fetch-stored}
use lazyd.Instance.Tasks.{
  answered, called, waiting, holding, writing, leaving, returned, with_disk, turn,
}
use lazyd.Instance.Tasks.Alone.{
  Turns, stop, more, Turns-trans, after_write, write_all_at-alone, marking-alone,
}

module _ (backend : RemoteBackend) (offset len : ℕ) (range : Range) where
  -- `store`, from the check of the length to the return of `set_range_ready`.
  storing-alone :
      (bytes : Bytes) (s : InstanceState)
      → Turns backend
          (answered offset len range (ok bytes), s)
          (leaving offset len range (store range bytes s).0, (store range bytes s).1)
  unfolding store
  storing-alone bytes s = elim (Bool-cases (length bytes == range.len)) [
    | inr h ↦ rw (store-short range bytes s h) (rw h stop)
    | inl h ↦
        let (r, d) = write_all_at s.inst.config.target_path bytes range.offset s.disk in
        let wrote = write_all_at-alone backend offset len range bytes s in
        elim (Result-cases r) [
          | inr (e, q) ↦ rw (store-failed range bytes s e h q) (
              rw h (
                subst
                  (λ o.
                    Turns backend (writing offset len range bytes 0, s)
                      (after_write backend offset len range o, with_disk s d))
                  q wrote))
          | inl (tt, q) ↦ rw (store-written range bytes s h q) (
              rw h (
                Turns-trans
                  (subst
                    (λ o.
                      Turns backend (writing offset len range bytes 0, s)
                        (after_write backend offset len range o, with_disk s d))
                    q wrote)
                  (marking-alone backend offset len range (with_disk s d))))
        ]
  ]

  fetching-alone :
      (s : InstanceState)
      → Turns backend
          (holding offset len range, s)
          (
            leaving offset len range (fetch backend offset len range s).0,
            (fetch backend offset len range s).1,
          )
  unfolding turn read_range
  fetching-alone s = elim (Bool-cases (is_range_ready s.inst.range_map offset len)) [
    | inl h ↦ rw (fetch-ready backend offset len range s h) (more (rw h stop))
    | inr h ↦ elim (Result-cases (backend s.calls range.offset range.len)) [
      | inr (e, q) ↦
          rw (fetch-failed backend offset len range s e h q) (more (rw h (more (rw q stop))))
      | inl (bytes, q) ↦
          rw (fetch-stored backend offset len range s bytes h q)
            (more (rw h (more (rw q (storing-alone bytes _)))))
    ]
  ]

module _ (backend : RemoteBackend) (offset len : ℕ) (s : InstanceState) where
  -- ensure_range and its turns.
  pub data Ends : Type 0 where
    sleeps :
        (range : Range)
        → ensure_range backend offset len s ≡ none
        → Turns backend (called offset len, s) (waiting offset len range, s)
        → is_busy range s ≡ true
        → Ends
    returns :
        (r : Result (Unit {0})) (t : InstanceState)
        → ensure_range backend offset len s ≡ some (r, t)
        → Turns backend (called offset len, s) (returned offset len r, t)
        → Ends

  -- From each state, a call of ensure_range whose turns are not interleaved with others comes back
  -- with the answer and the state that the function ensure_range gives, for each backend and disk;
  -- where that function sleeps, the turns lead to the loop of reserve_inflight with the state
  -- unchanged and the range busy.
  pub ensure_range-Turns : Ends
  unfolding ensure_range turn
  ensure_range-Turns = elim (Result-cases (admit s.inst offset len)) [
    | inr (e, q) ↦ returns (err e) s (rw (q, ensure_range) refl) (more (rw q stop))
    | inl (none, q) ↦ returns (ok tt) s (rw (q, ensure_range) refl) (more (rw q stop))
    | inl (some range, q) ↦ elim (Bool-cases (is_busy range s)) [
      | inl h ↦ sleeps range (rw (q, ensure_range, h) refl) (more (rw q stop)) h
      | inr h ↦
          let (r, t) = fetch backend offset len range (reserve_inflight range s) in
          returns r (release_inflight range t) (rw (q, ensure_range, h) refl) (
            more (
              rw q (
                more (
                  rw h (
                    Turns-trans (fetching-alone backend offset len range (reserve_inflight range s))
                      (more stop))))))
    ]
  ]
