-- ===== src/RangeMap/Recovery/Loop.antt =====
-- The loop of `recovery_reconcile`, round by round.
use mathlib.Core.Path.{subst₂}
use lazyd.Base.{
  ℕ, ◌+◌, ◌*◌, ◌/◌, ◌≤◌, ◌<◌, ◌≡◌, refl, ap, ◌∙◌, inl, inr, ◌↔◌, false, List, [], ◌∷◌, arith,
  if◌then◌else◌, Text, text_eq, u64_end, Option,
}
use lazyd.Errors.{Result, ok, err}
use lazyd.Exec.{continue, pure}
use lazyd.Disk.{Disk, File}
use lazyd.RangeMap.{MapState, slot_range, clear_range_ready}
use lazyd.RangeMap.Slots.{IsWellFormed, slot_range-eq, slot_inside, in_slot_iff}
use lazyd.RangeMap.Update.{filled-IsWellFormed, Wrote, files_after, files_after-other}
use lazyd.RangeMap.Presence.{Lseek, SeekLaws, range_is_present, range_is_present-Answers}
use lazyd.RangeMap.Recovery.{reconcile_slot, reconcile_slots}
use lazyd.RangeMap.Recovery.Slot.{
  IsMarked, In, AllBelow, end_of, len_of, clear_slot-Wrote, IsMarked-filled,
}

module _ (lseek : Lseek) (layer : Text) (IsData : ℕ → Type 0) where
  -- Each byte of the slot is data.
  abbrev pub SlotData : ℕ → ℕ → ℕ → Type 0
  SlotData u blob slot = (i : ℕ) → i < blob → i / u ≡ slot → IsData i

  -- What the proof needs of the state: the map is well-formed, and where the contents of the
  -- cache file are those of `d`, `lseek` keeps to its manual, with the data at `IsData`.
  pub record IsLoopState (u blob count : ℕ) (contents : Option File) (s : MapState) : Type 0 where
    pub unit : s.map.unit_bytes ≡ u
    pub blob_size : s.map.blob_size ≡ blob
    pub slot_count : s.map.slot_count ≡ count
    pub wf : IsWellFormed s.map
    pub apart : text_eq s.map.file layer ≡ false
    pub layer_file : s.disk.files layer ≡ contents

  -- The slots that are set in `t` were set in `s`, and those of `s` that are gone had a hole.
  pub record Reconciled (u blob count : ℕ) (contents : Option File) (s t : MapState) : Type 0 where
    pub state : IsLoopState u blob count contents t
    pub old : (k : ℕ) → IsMarked t.map k → IsMarked s.map k
    pub kept : (k : ℕ) → IsMarked s.map k → SlotData u blob k → IsMarked t.map k

  module _ (u blob count : ℕ) (contents : Option File)
      (laws : (d : Disk) → d.files layer ≡ contents → SeekLaws lseek d layer IsData) where
    abbrev pub Loop : MapState → Type 0
    Loop = IsLoopState u blob count contents

    Reconciled-refl : (s : MapState) → Loop s → Reconciled u blob count contents s s
    Reconciled-refl s l = record { state = l; old = λ k h. h; kept = λ k h _. h }

    Reconciled-trans :
        (s t v : MapState)
        → Reconciled u blob count contents s t
        → Reconciled u blob count contents t v
        → Reconciled u blob count contents s v
    Reconciled-trans s t v a b = record {
      state = b.state;
      old = λ k h. a.old k (b.old k h);
      kept = λ k h e. b.kept k (a.kept k h e) e;
    }

    layer_kept :
        (s t : MapState) (a : ℕ) (bytes : List ℕ)
        → Loop s
        → t.disk.files ≡ files_after s a bytes
        → t.disk.files layer ≡ contents
    layer_kept s t a bytes l f =
        ap (λ (g : Text → Option File). g layer) f
        ∙ files_after-other s a bytes layer l.apart
        ∙ l.layer_file

    clear_round :
        (s t : MapState) (r : Result (Unit {0})) (slot : ℕ)
        → Loop s
        → slot < count
        → Wrote s slot (slot + 1) 0 r t
        → ¬ SlotData u blob slot
        → Reconciled u blob count contents s t × (r ≡ ok tt → IsMarked t.map slot → ⊥)
    clear_round s t r slot l lt (inl (q, e, f)) hole =
        let others = λ (k : ℕ). IsMarked-filled s.map slot k l.wf (omega (arith, l.slot_count)) in
        (
          record {
            state = rw e (record {
              unit = l.unit;
              blob_size = l.blob_size;
              slot_count = l.slot_count;
              apart = l.apart;
              wf =
                  filled-IsWellFormed s.map slot (slot + 1) 0 (omega arith)
                    (omega (arith, l.slot_count)) l.wf;
              layer_file = layer_kept s t slot _ l f;
            });
            old = λ k h. ((others k).0 (rw e at h)).0;
            kept = λ k h d. rw e ((others k).1 (h, λ p. hole (rw p at d)));
          },
          λ _ h. ((others slot).0 (rw e at h)).1 refl,
        )
    clear_round s t r slot l lt (inr (x, n, q, e, f)) hole = (
      record {
        state = record {
          unit = rw e l.unit;
          blob_size = rw e l.blob_size;
          slot_count = rw e l.slot_count;
          apart = rw e l.apart;
          wf = rw e l.wf;
          layer_file = layer_kept s t slot _ l f;
        };
        old = λ k h. rw e at h;
        kept = λ k h d. rw e h;
      },
      λ z. cc,
    )

    -- One round of the loop.
    Round : MapState → ℕ → Result (Unit {0}) × MapState → Type 0
    Round s slot (r, t) =
        Reconciled u blob count contents s t
        × (r ≡ ok tt → IsMarked t.map slot → SlotData u blob slot)

    range_slot :
        (s : MapState) (slot : ℕ)
        → Loop s
        → slot < count
        → slot_range s.map slot ≡ ok (slot * u, len_of u blob slot)
    range_slot s slot l lt =
        rw (← l.unit, ← l.blob_size) (slot_range-eq s.map slot l.wf (omega (arith, l.slot_count)))

    reconcile_slot-eq :
        (s : MapState) (slot : ℕ)
        → Loop s
        → slot < count
        → reconcile_slot lseek layer slot s
          ≡ continue
              (range_is_present lseek s.disk layer (slot * u) (len_of u blob slot))
              (λ present.
                if present then pure tt else clear_range_ready (slot * u) (len_of u blob slot))
              s
    unfolding reconcile_slot
    reconcile_slot-eq s slot l lt = rw (range_slot s slot l lt, reconcile_slot)

    inside :
        (s : MapState) (slot : ℕ)
        → Loop s
        → slot < count
        → (slot * u < blob) × (0 < u) × (blob < u64_end)
    inside s slot l lt =
        let h = slot_inside s.map slot l.wf (omega (arith, l.slot_count)) in
        (
          simp (l.unit, l.blob_size) at h,
          omega (arith, l.wf.unit_pos, l.unit),
          omega (arith, l.wf.fits, l.blob_size),
        )

    -- The bytes of a slot are the bytes of its range.
    in_range :
        (s : MapState) (slot : ℕ)
        → Loop s
        → slot < count
        → (i : ℕ) → i < blob
        → (i / u ≡ slot) ↔ ((slot * u ≤ i) × (i < end_of u blob slot))
    in_range s slot l lt i below =
        let e = in_slot_iff i slot u (inside s slot l lt).1 in
        (λ h. omega (arith, e.1 h), λ h. e.0 (omega arith))

    cleared :
        (s : MapState) (slot : ℕ)
        → Loop s
        → slot < count
        → ¬ SlotData u blob slot
        → Round s slot (clear_range_ready (slot * u) (len_of u blob slot) s)
    unfolding Round
    cleared s slot l lt hole =
        let out = clear_range_ready (slot * u) (len_of u blob slot) s in
        let h = clear_slot-Wrote s slot l.wf (omega (arith, l.slot_count)) in
        let w : Wrote s slot (slot + 1) 0 out.0 out.1 =
          subst₂
            (λ v b.
              Wrote s slot (slot + 1) 0 (clear_range_ready (slot * v) (len_of v b slot) s).0
                (clear_range_ready (slot * v) (len_of v b slot) s).1)
            l.unit l.blob_size h in
        let (rec, gone) = clear_round s out.1 out.0 slot l lt w hole in
        (rec, λ q b. absurd (gone q b))

    reconcile_slot-Round :
        (s : MapState) (slot : ℕ)
        → Loop s
        → slot < count
        → Round s slot (reconcile_slot lseek layer slot s)
    unfolding Round
    reconcile_slot-Round s slot l lt =
        let here = in_range s slot l lt in
        let answers =
          range_is_present-Answers lseek s.disk layer (laws s.disk l.layer_file) (slot * u)
            (len_of u blob slot) (omega (arith, inside s slot l lt)) in
        rw (reconcile_slot-eq s slot l lt) (elim answers [
          | inl (q, all_data) ↦ rw q (
            Reconciled-refl s l,
            λ _ _ i below p. all_data i ((here i below).0 p).0 ((here i below).0 p).1,
          )
          | inr (inl (q, (i, lo, hi, hole))) ↦ rw q (
              cleared s slot l lt
                (λ d. hole (d i (omega arith) ((here i (omega arith)).1 (lo, hi)))))
          | inr (inr (e, q, _)) ↦ rw q (Reconciled-refl s l, λ z. cc)
        ])

    abbrev pub Loop-end : List ℕ → MapState → Result (Unit {0}) × MapState → Type 0
    Loop-end L s (r, t) =
        Reconciled u blob count contents s t
        × (r ≡ ok tt → (k : ℕ) → In k L → IsMarked t.map k → SlotData u blob k)

    -- A round that succeeds, and then the rest of the loop; or a round that fails, and no more.
    continue-end :
        (x : ℕ) (xs : List ℕ) (s : MapState) (out : Result (Unit {0}) × MapState)
        → Round s x out
        → ((t : MapState) → Loop t → Loop-end xs t (reconcile_slots lseek layer xs t))
        → Loop-end (x ∷ xs) s (continue out.0 (λ _. reconcile_slots lseek layer xs) out.1)
    unfolding Round
    continue-end x xs s (ok tt, t) round rest =
        let (rec, done) = rest t round.0.state in
        let v = (reconcile_slots lseek layer xs t).1 in
        (
          Reconciled-trans s t v round.0 rec,
          λ q k m set. elim m [
            | inl here ↦ rw here (round.1 refl (rw here at (rec.old k set)))
            | inr later ↦ done q k later set
          ],
        )
    continue-end x xs s (err e, t) round rest = (round.0, λ z. cc)

    pub reconcile_slots-end :
        (L : List ℕ) (s : MapState)
        → Loop s
        → AllBelow count L
        → Loop-end L s (reconcile_slots lseek layer L s)
    unfolding reconcile_slots
    reconcile_slots-end [] s l b = (Reconciled-refl s l, λ _ k m. absurd m)
    reconcile_slots-end (x ∷ xs) s l b =
        continue-end x xs s (reconcile_slot lseek layer x s) (reconcile_slot-Round s x l b.0)
          (λ t lt. reconcile_slots-end xs t lt b.1)
