-- ===== src/Instance/Tasks/Safety.antt =====
-- What holds of the calls of `ensure_range` on one instance, however their turns are ordered.
use lazyd.Base.{
  ℕ, ◌+◌, ◌≤◌, ◌<◌, ◌≡◌, ◌≢◌, refl, sym, subst, ◌⊎◌, inl, inr, some, true, false, [], any, arith,
  Bool-cases, u64_end,
}
use lazyd.Errors.{ok}
use lazyd.RangeMap.Update.{IsReady}
use lazyd.Remote.{RemoteBackend}
use lazyd.Instance.{InstanceState, Range, end, overlaps, is_busy}
use lazyd.Instance.Write.{byte_at}
use lazyd.Instance.Fetch.{Serves, IsHonest}
use lazyd.Instance.Tasks.{waiting, returned, held, System, Reach}
use lazyd.Instance.Tasks.Facts.{Fact}
use lazyd.Instance.Tasks.Each.{held-IsAligned}
use lazyd.Instance.Tasks.Flights.{busy-is_in}
use lazyd.Instance.Tasks.Steps.{Reach-Inv, Reach-Grows}

shared_byte :
    (r q : Range) (k : ℕ)
    → overlaps r q ≡ false
    → r.offset + r.len < u64_end
    → q.offset + q.len < u64_end
    → r.offset ≤ k
    → k < r.offset + r.len
    → q.offset ≤ k
    → k < q.offset + q.len
    → ⊥
unfolding overlaps end
shared_byte r q k h fits_r fits_q rlo rhi qlo qhi = ground arith

module _ (blob : ℕ → ℕ) (backend : RemoteBackend) (honest : IsHonest blob backend)
    (s : InstanceState) (v : Serves blob s) (none_yet : s.inst.inflight ≡ []) (u : System)
    (reach : Reach backend s u) where
  -- With a backend whose answers of the requested length are bytes of the blob, from an instance
  -- that serves the blob and has nothing in flight: after any calls of ensure_range that run at
  -- once, whatever the order of their turns (a turn ends at each lock, request and write of a
  -- file), wherever futures are dropped, whatever the calls of the disk do and whatever the rest
  -- of the daemon does to other files in between, the instance serves the blob, its configuration
  -- is as it was, no unit is less ready than before, and each byte of a call that is back with ok
  -- is ready and in the cache file.
  pub tasks_serve :
      Serves blob u.shared
      × (u.shared.inst.config ≡ s.inst.config)
      × ((k : ℕ) → IsReady s.inst.range_map k → IsReady u.shared.inst.range_map k)
      × ((i offset len : ℕ)
          → u.pc i ≡ returned offset len (ok tt)
          → (k : ℕ) → offset ≤ k
          → k < offset + len
          → IsReady u.shared.inst.range_map k
            × (byte_at u.shared.disk s.inst.config.target_path k ≡ blob k))
  tasks_serve =
      let inv = Reach-Inv blob backend honest s v none_yet u reach in
      let grows = Reach-Grows blob backend honest s v none_yet u reach in
      (
        inv.serves,
        grows.config,
        grows.ready,
        λ i offset len q k lo hi.
            let (below, ready) = subst (Fact blob u.shared) q (inv.facts i) refl k lo hi in
            (
              ready,
              subst (λ c. byte_at u.shared.disk c.target_path k ≡ blob k) grows.config
                  (inv.serves.backed.memory k below ready),
            ),
      )

  -- Under the same conditions, in each state that calls of ensure_range lead to, the ranges that
  -- two different calls have in flight share no byte.
  pub tasks_apart :
      (i j : ℕ) (r q : Range)
      → i ≢ j
      → held (u.pc i) ≡ some r
      → held (u.pc j) ≡ some q
      → (k : ℕ) → r.offset ≤ k
      → k < r.offset + r.len
      → ¬ ((q.offset ≤ k) × (k < q.offset + q.len))
  tasks_apart i j r q ne hi hj k lo up (qlo, qup) =
      let inv = Reach-Inv blob backend honest s v none_yet u reach in
      let m = inv.serves.backed.map in
      let ra = held-IsAligned blob u.shared inv.serves (u.pc i) r (inv.facts i) hi in
      let qa = held-IsAligned blob u.shared inv.serves (u.pc j) q (inv.facts j) hj in
      shared_byte r q k (inv.apart i j r q ne hi hj) (omega (arith, ra.within, m.fits, m.unit_pos))
        (omega (arith, qa.within, m.fits, m.unit_pos)) lo up qlo qup

  -- Under the same conditions, in each state that calls of ensure_range lead to, a call that waits
  -- for a range finds it free at its next turn, or another call has a range in flight that
  -- overlaps it: no range stays in flight without a call that holds it, also when futures are
  -- dropped.
  pub tasks_progress :
      (i offset len : ℕ) (range : Range)
      → u.pc i ≡ waiting offset len range
      → (is_busy range u.shared ≡ false)
        ⊎ ((j : ℕ) × (r : Range) × (i ≢ j) × (held (u.pc j) ≡ some r) × (overlaps r range ≡ true))
  unfolding is_busy
  tasks_progress i offset len range at =
      let inv = Reach-Inv blob backend honest s v none_yet u reach in
      elim (Bool-cases (any (λ item. overlaps item range) u.shared.inst.inflight)) [
        | inr free ↦ inl free
        | inl busy ↦
            let (r, inside, over) = busy-is_in range u.shared.inst.inflight busy in
            let (j, q) = inv.owned r inside in
            inr (
              j,
              r,
              λ e. absurd (let z = subst (λ k. held (u.pc k) ≡ some r) (sym e) q in cc),
              q,
              over,
            )
      ]
