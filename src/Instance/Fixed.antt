-- ===== src/Instance/Fixed.antt =====
-- `Instance::ensure_range` leaves the configuration of the instance alone and writes no file but
-- its cache file and its bitmap, whatever the backend answers and the state it starts from.
use lazyd.Base.{
  ℕ, ◌+◌, ◌/◌, ◌≡◌, List, refl, ap, sym, subst, ◌∙◌, inl, inr, Text, Bytes, text_eq, false, none,
  some, length, ◌==◌, Bool-cases,
}
use lazyd.Errors.{Result}
use lazyd.Exec.{Result-cases}
use lazyd.Disk.{Disk}
use lazyd.RangeMap.{MapState, is_set, header_size, is_range_ready, set_range_ready}
use lazyd.RangeMap.Only.{OnlyMap, update_range-OnlyMap}
use lazyd.Remote.{RemoteBackend}
use lazyd.Instance.{
  Instance, InstanceState, Range, admit, is_busy, store, fetch, ensure_range, reserve_inflight,
  release_inflight,
}
use lazyd.Instance.Write.{write_all_at-Written}
use lazyd.Instance.Backed.{byte_at-same}
use lazyd.Instance.Fetch.{Serves, wrote, store-short, store-failed, store-written}
use lazyd.Instance.Ensure.{asked, fetch-ready, fetch-failed, fetch-stored}

set_range_ready-OnlyMap : (start len : ℕ) (s : MapState) → OnlyMap s (set_range_ready start len s).1
unfolding set_range_ready
set_range_ready-OnlyMap start len s = update_range-OnlyMap start len 1 s

-- The configuration of an instance and the path of its bitmap stay, and no file changes but its
-- two.
pub record Local (s t : InstanceState) : Type 0 where
  pub config : t.inst.config ≡ s.inst.config
  pub file : t.inst.range_map.file ≡ s.inst.range_map.file
  pub others :
      (q : Text)
      → text_eq s.inst.config.target_path q ≡ false
      → text_eq s.inst.range_map.file q ≡ false
      → t.disk.files q ≡ s.disk.files q

pub Local-refl : (s : InstanceState) → Local s s
Local-refl s = record { config = refl; file = refl; others = λ q h k. refl }

store-Local : (range : Range) (bytes : Bytes) (s : InstanceState) → Local s (store range bytes s).1
store-Local range bytes s = elim (Bool-cases (length bytes == range.len)) [
  | inr h ↦ rw (store-short range bytes s h) (Local-refl s)
  | inl h ↦
      let w = write_all_at-Written s.inst.config.target_path bytes range.offset s.disk in
      elim (Result-cases (wrote range bytes s).0) [
        | inr (e, q) ↦
            rw (store-failed range bytes s e h q)
              (record { config = refl; file = refl; others = λ p a b. w.others p a })
        | inl (tt, q) ↦
            let m =
              set_range_ready-OnlyMap range.offset range.len
                (record { map = s.inst.range_map; disk = (wrote range bytes s).1 }) in
            rw (store-written range bytes s h q) (record {
              config = refl;
              file = m.file;
              others = λ p a b. m.others p b ∙ w.others p a;
            })
      ]
]

fetch-Local :
    (backend : RemoteBackend) (offset len : ℕ) (range : Range) (s : InstanceState)
    → Local s (fetch backend offset len range s).1
fetch-Local backend offset len range s =
    elim (Bool-cases (is_range_ready s.inst.range_map offset len)) [
      | inl h ↦ rw (fetch-ready backend offset len range s h) (Local-refl s)
      | inr h ↦ elim (Result-cases (backend s.calls range.offset range.len)) [
        | inr (e, q) ↦
            rw (fetch-failed backend offset len range s e h q)
              (record { config = refl; file = refl; others = λ p a b. refl })
        | inl (bytes, q) ↦
            let l = store-Local range bytes (asked backend offset len range s) in
            rw (fetch-stored backend offset len range s bytes h q)
              (record { config = l.config; file = l.file; others = l.others })
      ]
    ]

pub ensure_range-Local :
    (backend : RemoteBackend) (offset len : ℕ) (s t : InstanceState) (r : Result (Unit {0}))
    → ensure_range backend offset len s ≡ some (r, t)
    → Local s t
unfolding ensure_range reserve_inflight release_inflight
ensure_range-Local backend offset len s t r h = elim (Result-cases (admit s.inst offset len)) [
  | inr (e, q) ↦
      let z = rw (q, ensure_range) at h in
      let same : s ≡ t = cc in subst (Local s) same (Local-refl s)
  | inl (none, q) ↦
      let z = rw (q, ensure_range) at h in
      let same : s ≡ t = cc in subst (Local s) same (Local-refl s)
  | inl (some range, q) ↦ elim (Bool-cases (is_busy range s)) [
    | inl b ↦ let z = rw (q, ensure_range, b) at h in cc
    | inr b ↦
        let z = rw (q, ensure_range, b) at h in
        let end : InstanceState =
          release_inflight range (fetch backend offset len range (reserve_inflight range s)).1 in
        let same : end ≡ t = cc in
        let l = fetch-Local backend offset len range (reserve_inflight range s) in
        subst (Local s) same (record { config = l.config; file = l.file; others = l.others })
  ]
]

-- An instance whose two files are as they were serves its blob still.
pub Serves-elsewhere :
    (blob : ℕ → ℕ) (i : Instance) (d e : Disk) (calls calls' : List (ℕ × ℕ))
    → Serves blob (record { inst = i; disk = d; calls = calls })
    → e.files i.config.target_path ≡ d.files i.config.target_path
    → e.files i.range_map.file ≡ d.files i.range_map.file
    → Serves blob (record { inst = i; disk = e; calls = calls' })
Serves-elsewhere blob i d e calls calls' v target map = record {
  backed = record {
    map = v.backed.map;
    apart = v.backed.apart;
    memory =
        λ k lt ready. byte_at-same d e i.config.target_path k target ∙ v.backed.memory k lt ready;
    stored = λ k lt set.
        byte_at-same d e i.config.target_path k target
        ∙ v.backed.stored k lt (
            ap is_set (
              sym
                (byte_at-same d e i.range_map.file (header_size + k / i.range_map.unit_bytes) map))
            ∙ set);
  };
  consistent = v.consistent;
}
