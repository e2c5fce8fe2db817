-- ===== src/Instance/Fetch.antt =====
-- `Instance::ensure_range` from the request to the registry to the bits of the bitmap.
use lazyd.Base.{
  ℕ, ◌+◌, ◌≤◌, ◌<◌, ◌≡◌, refl, ap, sym, subst, ◌∙◌, inl, inr, Bytes, true, false, List, length,
  get_or, arith, ==→eq, ◌==◌, Bool-cases,
}
use lazyd.Errors.{Result, Error, ok, err}
use lazyd.Exec.{Result-cases}
use lazyd.Disk.{Disk}
use lazyd.RangeMap.{MapState, set_range_ready}
use lazyd.RangeMap.Update.{IsReady}
use lazyd.Remote.{RemoteBackend}
use lazyd.Instance.{InstanceState, Range, store, write_all_at, short_read}
use lazyd.Instance.Write.{Written, write_all_at-Written}
use lazyd.Instance.Amplify.{IsConsistent, IsAligned}
use lazyd.Instance.Backed.{Backed, Holds, Written-Backed, Written-Holds, set_range_ready-Marked}

-- The instance serves the blob whose bytes are `blob`.
pub record Serves (blob : ℕ → ℕ) (s : InstanceState) : Type 0 where
  pub backed : Backed blob s.inst.config.target_path s.inst.range_map s.disk
  pub consistent : IsConsistent s.inst

-- A backend whose answers of the requested length are bytes of the blob.
abbrev pub IsHonest : (ℕ → ℕ) → RemoteBackend → Type 0
IsHonest blob backend =
    (h : List (ℕ × ℕ)) (offset len : ℕ) (bytes : Bytes)
    → backend h offset len ≡ ok bytes
    → length bytes ≡ len
    → (k : ℕ) → k < len
    → get_or bytes k 0 ≡ blob (offset + k)

module _ (range : Range) (bytes : Bytes) (s : InstanceState) where
  abbrev pub wrote : Result (Unit {0}) × Disk
  wrote = write_all_at s.inst.config.target_path bytes range.offset s.disk

  abbrev pub marking : Result (Unit {0}) × MapState
  marking =
      set_range_ready range.offset range.len (record { map = s.inst.range_map; disk = wrote.1 })

  pub store-short :
      (length bytes == range.len) ≡ false
      → store range bytes s ≡ (err (short_read (length bytes) range.len), s)
  unfolding store
  store-short h = rw h

  pub store-failed :
      (e : Error)
      → (length bytes == range.len) ≡ true
      → wrote.0 ≡ err e
      → store range bytes s ≡ (err e, record s { disk = wrote.1 })
  unfolding store
  store-failed e h q = rw (h, q)

  pub store-written :
      (length bytes == range.len) ≡ true
      → wrote.0 ≡ ok tt
      → store range bytes s ≡ (
        marking.0,
        record s { inst = record s.inst { range_map = marking.1.map }; disk = marking.1.disk },
      )
  unfolding store
  store-written h q = rw (h, q)

-- How a step that ends with `r` changes an instance: the range is ready if it succeeded, and the
-- bitmap in memory is as it was if it failed.
pub record Stored (blob : ℕ → ℕ) (range : Range) (s : InstanceState) (r : Result (Unit {0}))
    (t : InstanceState) : Type 0 where
  pub serves : Serves blob t
  pub config : t.inst.config ≡ s.inst.config
  pub inflight : t.inst.inflight ≡ s.inst.inflight
  pub ready :
      r ≡ ok tt
      → (i : ℕ) → range.offset ≤ i
      → i < range.offset + range.len
      → IsReady t.inst.range_map i
  pub unmarked : (e : Error) → r ≡ err e → t.inst.range_map ≡ s.inst.range_map
  pub calls : t.calls ≡ s.calls

module _ (blob : ℕ → ℕ) (range : Range) (s : InstanceState) (v : Serves blob s)
    (aligned : IsAligned s.inst.range_map.unit_bytes s.inst.range_map.blob_size range) where
  Stored-failed :
      (e : Error) (t : InstanceState)
      → t.inst ≡ s.inst
      → t.calls ≡ s.calls
      → Serves blob t
      → Stored blob range s (err e) t
  Stored-failed e t q c w = record {
    serves = w;
    config = ap (λ i. i.config) q;
    inflight = ap (λ i. i.inflight) q;
    ready = λ z. cc;
    unmarked = λ e' z. ap (λ i. i.range_map) q;
    calls = c;
  }

  module _ (bytes : Bytes) (full : length bytes ≡ range.len)
      (genuine : (k : ℕ) → k < range.len → get_or bytes k 0 ≡ blob (range.offset + k)) where
    written :
        Written s.inst.config.target_path bytes range.offset s.disk
          (wrote range bytes s).0
          (wrote range bytes s).1
    written = write_all_at-Written s.inst.config.target_path bytes range.offset s.disk

    Backed-written : Backed blob s.inst.config.target_path s.inst.range_map (wrote range bytes s).1
    Backed-written =
        Written-Backed blob s.inst.config.target_path s.inst.range_map s.disk v.backed bytes
          range.offset _ _ written (λ k lt. genuine k (omega arith))

    Stored-written :
        (wrote range bytes s).0 ≡ ok tt
        → Stored blob range s (marking range bytes s).0 (record s {
          inst = record s.inst { range_map = (marking range bytes s).1.map };
          disk = (marking range bytes s).1.disk;
        })
    Stored-written q =
        let held =
          Written-Holds blob s.inst.config.target_path s.inst.range_map s.disk v.backed bytes
            range.offset _ _ written (λ k lt. genuine k (omega arith)) q in
        let m =
          set_range_ready-Marked blob s.inst.config.target_path s.inst.range_map
            (wrote range bytes s).1 Backed-written range.offset range.len aligned.some_bytes
            aligned.within aligned.start aligned.stop
            (subst
              (λ n.
                Holds blob s.inst.config.target_path (wrote range bytes s).1 range.offset
                  (range.offset + n))
              full held) in
        record {
          serves = record {
            backed = m.backed;
            consistent = record {
              map = m.backed.map;
              unit = v.consistent.unit ∙ sym m.shape.0;
              size = v.consistent.size ∙ sym m.shape.1;
            };
          };
          config = refl;
          inflight = refl;
          ready = m.ready;
          unmarked = m.unmarked;
          calls = refl;
        }

  pub store-Stored :
      (bytes : Bytes)
      → (length bytes ≡ range.len
          → (k : ℕ) → k < range.len
          → get_or bytes k 0 ≡ blob (range.offset + k))
      → Stored blob range s (store range bytes s).0 (store range bytes s).1
  store-Stored bytes genuine = elim (Bool-cases (length bytes == range.len)) [
    | inr h ↦ rw (store-short range bytes s h) (Stored-failed _ s refl refl v)
    | inl h ↦
        let full = ==→eq (length bytes) range.len h in
        elim (Result-cases (wrote range bytes s).0) [
          | inr (e, q) ↦ rw (store-failed range bytes s e h q) (
              Stored-failed e _ refl refl (record {
                backed = Backed-written bytes full (genuine full);
                consistent = v.consistent;
              }))
          | inl (tt, q) ↦
              rw (store-written range bytes s h q) (Stored-written bytes full (genuine full) q)
        ]
  ]
