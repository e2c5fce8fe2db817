-- ===== src/Instance/Pages/Kept.antt =====
-- What a call of `ensure_range` or `prepare_fetch_range` that returns leaves to the others.
use lazyd.Base.{ℕ, ◌≡◌, ap, subst, ◌∙◌, inl, inr, some, Option-cases}
use lazyd.Errors.{Result, ok, err}
use lazyd.Exec.{Result-cases}
use lazyd.Disk.{sync}
use lazyd.Disk.Laws.Files.{sync-files}
use lazyd.Remote.{RemoteBackend}
use lazyd.Instance.{InstanceState, ensure_range}
use lazyd.Instance.Fetch.{Serves, IsHonest}
use lazyd.Instance.Fixed.{Local, Local-refl, Serves-elsewhere, ensure_range-Local}
use lazyd.Instance.Outcome.{sleeps, returns, ensure_range_lem}
use lazyd.Instance.Pages.{FetchRange, Handle, page_len, hand_out, prepare_fetch_range}

-- The instance serves its blob still, and no file changed but its two.
pub record Kept (blob : ℕ → ℕ) (s t : InstanceState) : Type 0 where
  pub serves : Serves blob t
  pub local : Local s t

module _ (blob : ℕ → ℕ) (backend : RemoteBackend) (honest : IsHonest blob backend)
    (s : InstanceState) (v : Serves blob s) where
  pub ensure_range-Kept :
      (offset len : ℕ) (r : Result (Unit {0})) (t : InstanceState)
      → ensure_range backend offset len s ≡ some (r, t)
      → Kept blob s t
  ensure_range-Kept offset len r t h = record {
    serves = elim (ensure_range_lem blob backend honest offset len s v) [
      | sleeps _ q _ _ ↦ cc
      | returns x u q e ↦ let same : u ≡ t = cc in subst (Serves blob) same e.serves
    ];
    local = ensure_range-Local backend offset len s t r h;
  }

  synced-Kept :
      (t : InstanceState) → Kept blob s t → Kept blob s (record t { disk = (sync t.disk).1 })
  synced-Kept t k =
      let same = sync-files t.disk in
      record {
        serves =
            Serves-elsewhere blob t.inst t.disk (sync t.disk).1 t.calls t.calls k.serves
              (ap (λ g. g t.inst.config.target_path) same) (ap (λ g. g t.inst.range_map.file) same);
        local = record {
          config = k.local.config;
          file = k.local.file;
          others = λ q a b. ap (λ g. g q) same ∙ k.local.others q a b;
        };
      }

  hand_out-Kept :
      (offset len : ℕ) (r : Result (Unit {0})) (t : InstanceState)
      → Kept blob s t
      → Kept blob s (hand_out offset len (r, t)).1
  unfolding hand_out
  hand_out-Kept offset len (err e) t k = k
  hand_out-Kept offset len (ok _) t k = synced-Kept t k

  pub prepare_fetch_range-Kept :
      (offset len page : ℕ) (r : Result (FetchRange × Handle)) (t : InstanceState)
      → prepare_fetch_range backend offset len page s ≡ some (r, t)
      → Kept blob s t
  unfolding prepare_fetch_range
  prepare_fetch_range-Kept offset len page r t h =
      elim (Result-cases (page_len s.inst.config.blob.size offset len page)) [
        | inr (e, q) ↦
            let z = rw (q, prepare_fetch_range) at h in
            let same : s ≡ t = cc in
            subst (Kept blob s) same (record { serves = v; local = Local-refl s })
        | inl (n, q) ↦ elim (Option-cases (ensure_range backend offset n s)) [
          | inl w ↦ let z = rw (q, prepare_fetch_range, w) at h in cc
          | inr ((x, u), w) ↦
              let z = rw (q, prepare_fetch_range, w) at h in
              let same : (hand_out offset len (x, u)).1 ≡ t = cc in
              subst (Kept blob s) same
                (hand_out-Kept offset len x u (ensure_range-Kept offset n x u w))
        ]
      ]
