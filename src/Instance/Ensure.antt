-- ===== src/Instance/Ensure.antt =====
-- The parts of `Instance::ensure_range`: `admit`, the fetch, and the release of the range.
use lazyd.Base.{
  ℕ, ◌+◌, ◌≤◌, ◌<◌, ◌≡◌, refl, ◌∙◌, ◌⊎◌, inl, inr, text, Bytes, Option, Bool, true, false, not,
  none, some, List, [], ◌∷◌, ◌++◌, any, retain, arith, ==→eq, ◌==◌, if◌then◌else◌, Bool-cases, ltb,
  ltb→le, u64_end,
}
use lazyd.Errors.{Result, Error, ok, err, bad_request, remote}
use lazyd.Exec.{Result-cases}
use lazyd.RangeMap.{is_range_ready}
use lazyd.RangeMap.Update.{IsReady, is_range_ready_iff}
use lazyd.Remote.{RemoteBackend}
use lazyd.Instance.{
  Instance, InstanceState, Range, end, overlaps, range_eq, admit, store, fetch, read_range,
  amplify_to_fetch_unit,
}
use lazyd.Instance.Amplify.{IsConsistent, IsAligned, Amplified, amplify_to_fetch_unit_lem}
use lazyd.Instance.Fetch.{Serves, IsHonest, store-Stored}

-- What `admit` decides: an error, nothing to do, or a range to fetch.
pub data Admitted (i : Instance) (offset len : ℕ) : Type 0 where
  refused : (e : Error) → admit i offset len ≡ err e → Admitted i offset len
  done :
      admit i offset len ≡ ok none
      → (len ≡ 0)
        ⊎ ((offset + len ≤ i.range_map.blob_size) × (is_range_ready i.range_map offset len ≡ true))
      → Admitted i offset len
  wanted :
      (range : Range)
      → admit i offset len ≡ ok (some range)
      → 0 < len
      → offset + len ≤ i.range_map.blob_size
      → Amplified i.config.fetch.unit_bytes i.config.blob.size offset len range
      → Admitted i offset len

-- What `admit` does with the trust in the instance, the state of the range and its amplification.
abbrev verdict : Bool → Bool → Result Range → Result (Option Range)
verdict trusted ready amplified =
    if not trusted
    then err (remote (text "instance is not trusted"))
    else if ready
    then ok none
    else elim amplified [ err e ↦ err e | ok range ↦ ok (some range) ]

verdict-wanted :
    (t r : Bool) (x : Result Range) (range : Range)
    → t ≡ true
    → r ≡ false
    → x ≡ ok range
    → verdict t r x ≡ ok (some range)
verdict-wanted t r x range ht hr hx = rw (ht, hr, hx)

module _ (i : Instance) (offset len : ℕ) (c : IsConsistent i) where
  admit_empty : len ≡ 0 → admit i offset len ≡ ok none
  unfolding admit
  admit_empty h = rw h

  admit_inside :
      0 < len
      → offset + len ≤ i.config.blob.size
      → admit i offset len
        ≡ verdict i.trusted
            (is_range_ready i.range_map offset len)
            (amplify_to_fetch_unit i offset len)
  unfolding admit
  admit_inside pos within = ground (arith, c.map.fits, c.size)

  admit_outside :
      0 < len
      → i.config.blob.size < offset + len
      → admit i offset len
        ≡ err (
            bad_request (
              if ltb (offset + len) u64_end
              then text "range exceeds blob size"
              else text "range overflows u64"))
  unfolding admit
  admit_outside pos over = ground arith

  pub admit-Admitted : Admitted i offset len
  admit-Admitted = elim (Bool-cases (len == 0)) [
    | inl h ↦ done (admit_empty (==→eq len 0 h)) (inl (==→eq len 0 h))
    | inr h ↦
        let pos : 0 < len = ground arith in
        elim (Bool-cases (ltb i.config.blob.size (offset + len))) [
          | inl k ↦ refused _ (admit_outside pos (ground arith))
          | inr k ↦
              let within = ltb→le i.config.blob.size (offset + len) k in
              elim (Bool-cases i.trusted) [
                | inr t ↦
                    refused (remote (text "instance is not trusted"))
                      (admit_inside pos within ∙ rw t)
                | inl t ↦ elim (Bool-cases (is_range_ready i.range_map offset len)) [
                  | inl r ↦
                      done (admit_inside pos within ∙ rw (t, r)) (inr (omega (arith, c.size), r))
                  | inr r ↦
                      let (range, q, a) = amplify_to_fetch_unit_lem i offset len c pos within in
                      wanted range (admit_inside pos within ∙ verdict-wanted _ _ _ range t r q) pos
                        (omega (arith, c.size)) a
                ]
              ]
        ]
  ]

pub overlaps_self :
    (item range : Range)
    → 0 < range.len
    → range.offset + range.len < u64_end
    → range_eq item range ≡ true
    → overlaps item range ≡ true
unfolding overlaps range_eq end
overlaps_self item range pos fits h = ground arith

pub range_eq_refl : (range : Range) → range_eq range range ≡ true
unfolding range_eq
range_eq_refl range = ground arith

pub retain-release :
    (range : Range) (xs : List Range)
    → 0 < range.len
    → range.offset + range.len < u64_end
    → any (λ item. overlaps item range) xs ≡ false
    → retain (λ item. not (range_eq item range)) (xs ++ range ∷ []) ≡ xs
unfolding retain
retain-release range [] pos fits free = let self = range_eq_refl range in ground arith
retain-release range (x ∷ xs) pos fits free =
    ground (arith, overlaps_self x range pos fits, retain-release range xs pos fits)

-- The part of `ensure_range` with the range in flight.
module _ (backend : RemoteBackend) (offset len : ℕ) (range : Range) (s : InstanceState) where
  abbrev pub asked : InstanceState
  asked = record s { calls = s.calls ++ (range.offset, range.len) ∷ [] }

  pub fetch-ready :
      is_range_ready s.inst.range_map offset len ≡ true
      → fetch backend offset len range s ≡ (ok tt, s)
  unfolding fetch
  fetch-ready h = rw h

  pub fetch-failed :
      (e : Error)
      → is_range_ready s.inst.range_map offset len ≡ false
      → backend s.calls range.offset range.len ≡ err e
      → fetch backend offset len range s ≡ (err e, asked)
  unfolding fetch read_range
  fetch-failed e h q = rw (h, q)

  pub fetch-stored :
      (bytes : Bytes)
      → is_range_ready s.inst.range_map offset len ≡ false
      → backend s.calls range.offset range.len ≡ ok bytes
      → fetch backend offset len range s ≡ store range bytes asked
  unfolding fetch read_range
  fetch-stored bytes h q = rw (h, q)

module _ (blob : ℕ → ℕ) (backend : RemoteBackend) (honest : IsHonest blob backend) (offset len : ℕ)
    (range : Range) (s : InstanceState) where
  module _ (v : Serves blob s) (within : offset + len ≤ s.inst.range_map.blob_size) where
    IsReady-bytes :
        is_range_ready s.inst.range_map offset len ≡ true
        → (i : ℕ) → offset ≤ i
        → i < offset + len
        → IsReady s.inst.range_map i
    IsReady-bytes h = (is_range_ready_iff s.inst.range_map offset len v.backed.map within).0 h

  -- What `fetch` leaves of the request, for `Ensured`.
  pub record Fetched (r : Result (Unit {0})) (t : InstanceState) : Type 0 where
    pub serves : Serves blob t
    pub config : t.inst.config ≡ s.inst.config
    pub inflight : t.inst.inflight ≡ s.inst.inflight
    pub served : r ≡ ok tt → (i : ℕ) → offset ≤ i → i < offset + len → IsReady t.inst.range_map i
    pub unmarked : (e : Error) → r ≡ err e → t.inst.range_map ≡ s.inst.range_map
    pub calls : (t.calls ≡ s.calls) ⊎ (t.calls ≡ s.calls ++ (range.offset, range.len) ∷ [])

  module _ (v : Serves blob s) (within : offset + len ≤ s.inst.range_map.blob_size)
      (aligned : IsAligned s.inst.range_map.unit_bytes s.inst.range_map.blob_size range)
      (holds : (range.offset ≤ offset) × (offset + len ≤ range.offset + range.len)) where
    asked-Serves : Serves blob (asked backend offset len range s)
    asked-Serves = record { backed = v.backed; consistent = v.consistent }

    pub fetch-Fetched :
        Fetched (fetch backend offset len range s).0 (fetch backend offset len range s).1
    fetch-Fetched = elim (Bool-cases (is_range_ready s.inst.range_map offset len)) [
      | inl h ↦ rw (fetch-ready backend offset len range s h) (record {
        serves = v;
        config = refl;
        inflight = refl;
        served = λ _. IsReady-bytes v within h;
        unmarked = λ e z. refl;
        calls = inl refl;
      })
      | inr h ↦ elim (Result-cases (backend s.calls range.offset range.len)) [
        | inr (e, q) ↦ rw (fetch-failed backend offset len range s e h q) (record {
          serves = asked-Serves;
          config = refl;
          inflight = refl;
          served = λ z. cc;
          unmarked = λ e' z. refl;
          calls = inr refl;
        })
        | inl (bytes, q) ↦
            let st =
              store-Stored blob range (asked backend offset len range s) asked-Serves aligned bytes
                (λ full. honest s.calls range.offset range.len bytes q full) in
            rw (fetch-stored backend offset len range s bytes h q) (record {
              serves = st.serves;
              config = st.config;
              inflight = st.inflight;
              served = λ z i lo hi. st.ready z i (omega (arith, holds)) (omega (arith, holds));
              unmarked = st.unmarked;
              calls = inr st.calls;
            })
      ]
    ]
