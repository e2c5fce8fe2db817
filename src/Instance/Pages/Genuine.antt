-- ===== src/Instance/Pages/Genuine.antt =====
-- A range that `prepare_fetch_range` hands out holds the bytes of the blob.
use lazyd.Base.{
  ℕ, ◌+◌, ◌%◌, ◌≤◌, ◌<◌, ◌≡◌, refl, ap, ◌∙◌, inl, inr, arith, none, some, ◌==◌, div_ceil_lower,
  u64_end, min, Bool-cases, Option-cases,
}
use lazyd.Errors.{Error, IoError, io, Result, ok, err}
use lazyd.Exec.{Result-cases}
use lazyd.Disk.{sync, tick, failed}
use lazyd.Remote.{RemoteBackend}
use lazyd.Instance.{InstanceState, ensure_range}
use lazyd.Instance.Write.{byte_at}
use lazyd.Instance.Fetch.{Serves, IsHonest}
use lazyd.Instance.Outcome.{Ensured, sleeps, returns, ensure_range_lem}
use lazyd.Instance.Pages.{FetchRange, page_len, blob_page_end, hand_out, prepare_fetch_range}

-- What is known of a request that passes the checks.
pub record Paged (size offset len page real_len : ℕ) : Type 0 where
  pub aligned : (offset % page ≡ 0) × (len % page ≡ 0)
  pub starts : offset < size
  pub within : offset + len < size + page
  pub real : offset + real_len ≡ min size (offset + len)

page_end :
    (size page : ℕ) → 0 < page → size + page ≤ u64_end → blob_page_end size page < size + page
unfolding blob_page_end
page_end size page pos fits = let down = div_ceil_lower size page pos in ground arith

page_len-Paged :
    (size offset len page n : ℕ)
    → size + page ≤ u64_end
    → page_len size offset len page ≡ ok n
    → Paged size offset len page n
unfolding page_len
page_len-Paged size offset len page n fits h = elim (Bool-cases (page == 0)) [
  | inl z ↦ absurd (ground arith)
  | inr z ↦
      let pos : 0 < page = ground arith in
      let low = page_end size page pos fits in
      record {
        aligned = (ground arith, ground arith);
        starts = ground arith;
        within = ground arith;
        real = ground arith;
      }
]

-- `prepare_fetch_range` waits for a range in flight; or fails; or hands out the pages that were
-- asked for, with the handle of the cache file, which start in the blob and end with its last page
-- at the latest, and then the cache file has the bytes of the blob in them. However it ends, the
-- instance serves the blob still.
pub data Handed (blob : ℕ → ℕ) (backend : RemoteBackend) (offset len page : ℕ) (s : InstanceState)
    : Type 0 where
  waits :
      prepare_fetch_range backend offset len page s ≡ none → Handed blob backend offset len page s
  fails :
      (e : Error) (t : InstanceState)
      → prepare_fetch_range backend offset len page s ≡ some (err e, t)
      → Serves blob t
      → Handed blob backend offset len page s
  hands :
      (t : InstanceState) (real_len : ℕ)
      → prepare_fetch_range backend offset len page s
        ≡ some (
          ok (record { off = offset; len = len; dev_off = offset }, s.inst.config.target_path),
          t,
        )
      → Serves blob t
      → Paged s.inst.config.blob.size offset len page real_len
      → ((i : ℕ)
          → offset ≤ i
          → i < offset + real_len
          → byte_at t.disk s.inst.config.target_path i ≡ blob i)
      → Handed blob backend offset len page s

module _ (blob : ℕ → ℕ) (backend : RemoteBackend) (offset len page : ℕ) (s : InstanceState) where
  abbrev synced : InstanceState → InstanceState
  synced t = record t { disk = tick t.disk }

  synced-Serves : (t : InstanceState) → Serves blob t → Serves blob (synced t)
  unfolding byte_at
  synced-Serves t v = record {
    backed = record {
      map = v.backed.map;
      apart = v.backed.apart;
      memory = v.backed.memory;
      stored = v.backed.stored;
    };
    consistent = record {
      map = v.consistent.map;
      unit = v.consistent.unit;
      size = v.consistent.size;
    };
  }

  eq_refused :
      (e : Error)
      → page_len s.inst.config.blob.size offset len page ≡ err e
      → prepare_fetch_range backend offset len page s ≡ some (err e, s)
  unfolding prepare_fetch_range
  eq_refused e q = rw (q, prepare_fetch_range)

  eq_waits :
      (n : ℕ)
      → page_len s.inst.config.blob.size offset len page ≡ ok n
      → ensure_range backend offset n s ≡ none
      → prepare_fetch_range backend offset len page s ≡ none
  unfolding prepare_fetch_range
  eq_waits n q h = rw (q, prepare_fetch_range, h)

  eq_out :
      (n : ℕ) (out : Result (Unit {0}) × InstanceState)
      → page_len s.inst.config.blob.size offset len page ≡ ok n
      → ensure_range backend offset n s ≡ some out
      → prepare_fetch_range backend offset len page s ≡ some (hand_out offset len out)
  unfolding prepare_fetch_range
  eq_out n out q h = rw (q, prepare_fetch_range, h)

  hand_out-ok :
      (t : InstanceState)
      → failed (t.disk.plan t.disk.calls) ≡ none
      → hand_out offset len (ok tt, t) ≡ (
        ok (record { off = offset; len = len; dev_off = offset }, t.inst.config.target_path),
        synced t,
      )
  unfolding hand_out sync
  hand_out-ok t q = ground arith

  hand_out-err :
      (e : IoError) (t : InstanceState)
      → failed (t.disk.plan t.disk.calls) ≡ some e
      → hand_out offset len (ok tt, t) ≡ (err (io e), synced t)
  unfolding hand_out sync
  hand_out-err e t q = ground arith

  hand_out-fails : (e : Error) (t : InstanceState) → hand_out offset len (err e, t) ≡ (err e, t)
  unfolding hand_out
  hand_out-fails e t = refl

  returned :
      (n : ℕ) (r : Result (Unit {0})) (t : InstanceState)
      → Paged s.inst.config.blob.size offset len page n
      → page_len s.inst.config.blob.size offset len page ≡ ok n
      → ensure_range backend offset n s ≡ some (r, t)
      → Ensured blob offset n s r t
      → Handed blob backend offset len page s
  returned n (err e) t p q h en =
      fails e t (eq_out n (err e, t) q h ∙ ap some (hand_out-fails e t)) en.serves
  returned n (ok tt) t p q h en = elim (Option-cases (failed (t.disk.plan t.disk.calls))) [
    | inr (e, z) ↦
        fails (io e) (synced t) (eq_out n (ok tt, t) q h ∙ ap some (hand_out-err e t z))
          (synced-Serves t en.serves)
    | inl z ↦
        let range : FetchRange = record { off = offset; len = len; dev_off = offset } in
        hands (synced t) n
          (eq_out n (ok tt, t) q h
            ∙ ap some (hand_out-ok t z)
            ∙ ap (λ c. some (ok (range, c.target_path), synced t)) en.config)
          (synced-Serves t en.serves) p (λ i lo hi. unfold byte_at in (en.served refl i lo hi).1)
  ]

  -- With an honest backend, from an instance that serves the blob, where the blob's size plus a
  -- page is at most 2^64, prepare_fetch_range waits, fails, or hands out the range that was asked
  -- for with a handle of the target file; then the range is aligned to pages, starts in the blob,
  -- ends less than a page behind it, and its bytes within the blob are in the cache file. When it
  -- returns, the instance serves the blob still.
  pub prepare_fetch_range_lem :
      IsHonest blob backend
      → Serves blob s
      → s.inst.config.blob.size + page ≤ u64_end
      → Handed blob backend offset len page s
  prepare_fetch_range_lem honest v fits =
      elim (Result-cases (page_len s.inst.config.blob.size offset len page)) [
        | inr (e, q) ↦ fails e s (eq_refused e q) v
        | inl (n, q) ↦ elim (ensure_range_lem blob backend honest offset n s v) [
          | sleeps _ h _ _ ↦ waits (eq_waits n q h)
          | returns r t h en ↦
              returned n r t (page_len-Paged s.inst.config.blob.size offset len page n fits q) q h
                en
        ]
      ]
