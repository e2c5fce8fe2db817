-- ===== src/Instance/Outcome.antt =====
-- `Instance::ensure_range` on every outcome.
use lazyd.Base.{
  ℕ, ◌+◌, ◌≤◌, ◌<◌, ◌≡◌, refl, ap, subst, ◌⊎◌, inl, inr, true, false, not, none, some, List, [],
  ◌∷◌, ◌++◌, retain, arith, Bool-cases,
}
use lazyd.Errors.{Result, Error, ok, err}
use lazyd.RangeMap.{is_range_ready}
use lazyd.RangeMap.Update.{IsReady, is_range_ready_iff}
use lazyd.Remote.{RemoteBackend}
use lazyd.Instance.{
  InstanceState, Range, range_eq, admit, is_busy, fetch, ensure_range, reserve_inflight,
  release_inflight,
}
use lazyd.Instance.Write.{byte_at}
use lazyd.Instance.Amplify.{IsAligned, Amplified}
use lazyd.Instance.Ensure.{refused, done, wanted, admit-Admitted, fetch-Fetched, retain-release}
use lazyd.Instance.Fetch.{Serves, IsHonest}

-- A call of `ensure_range` that has returned `r`. After `ok`, every byte of the request is ready
-- and in the cache file; after an error the bitmap in memory is as it was. At most one request went
-- to the registry, for the amplified range.
pub record Ensured (blob : ℕ → ℕ) (offset len : ℕ) (s : InstanceState) (r : Result (Unit {0}))
    (t : InstanceState) : Type 0 where
  pub serves : Serves blob t
  pub config : t.inst.config ≡ s.inst.config
  pub inflight : t.inst.inflight ≡ s.inst.inflight
  pub served :
      r ≡ ok tt
      → (i : ℕ) → offset ≤ i
      → i < offset + len
      → IsReady t.inst.range_map i × (byte_at t.disk s.inst.config.target_path i ≡ blob i)
  pub unmarked : (e : Error) → r ≡ err e → t.inst.range_map ≡ s.inst.range_map
  pub calls :
      (t.calls ≡ s.calls)
      ⊎ ((range : Range) × Amplified s.inst.config.fetch.unit_bytes s.inst.config.blob.size offset
            len range
          × (t.calls ≡ s.calls ++ (range.offset, range.len) ∷ []))

-- `ensure_range` sleeps, since it wants a range that overlaps one in flight; or it returns, as
-- `Ensured` says.
pub data Called (blob : ℕ → ℕ) (backend : RemoteBackend) (offset len : ℕ) (s : InstanceState)
    : Type 0 where
  sleeps :
      (range : Range)
      → ensure_range backend offset len s ≡ none
      → admit s.inst offset len ≡ ok (some range)
      → is_busy range s ≡ true
      → Called blob backend offset len s
  returns :
      (r : Result (Unit {0})) (t : InstanceState)
      → ensure_range backend offset len s ≡ some (r, t)
      → Ensured blob offset len s r t
      → Called blob backend offset len s

module _ (blob : ℕ → ℕ) (backend : RemoteBackend) (honest : IsHonest blob backend) (offset len : ℕ)
    (s : InstanceState) (v : Serves blob s) where
  refused_eq :
      (e : Error)
      → admit s.inst offset len ≡ err e
      → ensure_range backend offset len s ≡ some (err e, s)
  unfolding ensure_range
  refused_eq e q = rw (q, ensure_range)

  done_eq : admit s.inst offset len ≡ ok none → ensure_range backend offset len s ≡ some (ok tt, s)
  unfolding ensure_range
  done_eq q = rw (q, ensure_range)

  busy_eq :
      (range : Range)
      → admit s.inst offset len ≡ ok (some range)
      → is_busy range s ≡ true
      → ensure_range backend offset len s ≡ none
  unfolding ensure_range
  busy_eq range q h = rw (q, ensure_range, h)

  abbrev ran : Range → Result (Unit {0}) × InstanceState
  ran range = fetch backend offset len range (reserve_inflight range s)

  ran_eq :
      (range : Range)
      → admit s.inst offset len ≡ ok (some range)
      → is_busy range s ≡ false
      → ensure_range backend offset len s
        ≡ some ((ran range).0, release_inflight range (ran range).1)
  unfolding ensure_range
  ran_eq range q h = rw (q, ensure_range, h)

  done_bytes :
      (len ≡ 0)
        ⊎ ((offset + len ≤ s.inst.range_map.blob_size)
            × (is_range_ready s.inst.range_map offset len ≡ true))
      → (i : ℕ) → offset ≤ i
      → i < offset + len
      → IsReady s.inst.range_map i × (byte_at s.disk s.inst.config.target_path i ≡ blob i)
  done_bytes (inl z) i lo hi = absurd (omega arith)
  done_bytes (inr (within, q)) i lo hi =
      let ready =
        (is_range_ready_iff s.inst.range_map offset len v.backed.map within).0 q i lo hi in
      (ready, v.backed.memory i (omega arith) ready)

  module _ (range : Range) (pos : 0 < len) (within : offset + len ≤ s.inst.range_map.blob_size)
      (a : Amplified s.inst.config.fetch.unit_bytes s.inst.config.blob.size offset len range)
      (free : is_busy range s ≡ false) where
    reserved : Serves blob (reserve_inflight range s)
    unfolding reserve_inflight
    reserved = record {
      backed = v.backed;
      consistent = record {
        map = v.consistent.map;
        unit = v.consistent.unit;
        size = v.consistent.size;
      };
    }

    aligned : IsAligned s.inst.range_map.unit_bytes s.inst.range_map.blob_size range
    aligned =
        subst (λ u. IsAligned u s.inst.range_map.blob_size range) v.consistent.unit
          (subst (λ n. IsAligned s.inst.config.fetch.unit_bytes n range) v.consistent.size
            a.aligned)

    restored :
        (xs : List Range)
        → xs ≡ s.inst.inflight ++ range ∷ []
        → retain (λ item. not (range_eq item range)) xs ≡ s.inst.inflight
    unfolding is_busy
    restored xs q = rw q (
        retain-release range s.inst.inflight a.aligned.some_bytes
          (omega (
            arith, a.aligned.within, v.consistent.map.fits, v.consistent.size,
            v.consistent.map.unit_pos,
          ))
          free)

    ran-Ensured : Ensured blob offset len s (ran range).0 (release_inflight range (ran range).1)
    unfolding reserve_inflight release_inflight
    ran-Ensured =
        let f =
          fetch-Fetched blob backend honest offset len range (reserve_inflight range s) reserved
            within aligned a.holds in
        record {
          serves = record {
            backed = f.serves.backed;
            consistent = record {
              map = f.serves.consistent.map;
              unit = f.serves.consistent.unit;
              size = f.serves.consistent.size;
            };
          };
          config = f.config;
          inflight = restored (ran range).1.inst.inflight f.inflight;
          served = λ z i lo hi.
              let ready = f.served z i lo hi in
              (
                ready,
                subst (λ c. byte_at (ran range).1.disk c.target_path i ≡ blob i) f.config
                    (f.serves.backed.memory i
                      (omega (
                        arith,
                        ap (λ c. c.blob.size) f.config,
                        f.serves.consistent.size,
                        v.consistent.size,
                      ))
                      ready),
              );
          unmarked = f.unmarked;
          calls = elim f.calls [ inl q ↦ inl q | inr q ↦ inr (range, a, q) ];
        }

  -- With a backend whose answers of the requested length are bytes of the blob, from an instance
  -- that serves the blob (each ready slot, in memory or in the bitmap file, has the blob's bytes
  -- in the cache file), a call of ensure_range sleeps only if a range in flight overlaps the one
  -- it wants to fetch; else it returns, and the instance serves the blob still, the configuration
  -- and the ranges in flight are as before, at most one request went to the registry, for the
  -- whole units of the range, after ok each byte of the request is ready and in the cache file,
  -- and after an error the bitmap in memory is as it was. Calls of the disk may fail or write less
  -- than they were given.
  pub ensure_range_lem : Called blob backend offset len s
  ensure_range_lem = elim (admit-Admitted s.inst offset len v.consistent) [
    | refused e q ↦ returns (err e) s (refused_eq e q) (record {
      serves = v;
      config = refl;
      inflight = refl;
      served = λ z. cc;
      unmarked = λ e' z. refl;
      calls = inl refl;
    })
    | done q h ↦ returns (ok tt) s (done_eq q) (record {
      serves = v;
      config = refl;
      inflight = refl;
      served = λ z. done_bytes h;
      unmarked = λ e' z. refl;
      calls = inl refl;
    })
    | wanted range q pos within a ↦ elim (Bool-cases (is_busy range s)) [
      | inl b ↦ sleeps range (busy_eq range q b) q b
      | inr b ↦
          returns (ran range).0 (release_inflight range (ran range).1) (ran_eq range q b)
            (ran-Ensured range pos within a b)
    ]
  ]
