-- ===== src/Instance/Tasks/Turns/Marking.antt =====
-- `set_range_ready` in two turns: the bitmap file, then the slots in memory.
use lazyd.Base.{
  ℕ, ◌+◌, ◌-◌, ◌/◌, ◌≤◌, ◌≡◌, refl, ◌∙◌, ◌⊎◌, inl, inr, List, ◌↔◌, length, replicate, take,
  length-take, length-replicate, div_ceil, arith,
}
use lazyd.Errors.{Result, ok, err}
use lazyd.Disk.{Disk, write_all_at}
use lazyd.Disk.Laws.{Outcome-cases}
use lazyd.RangeMap.{RangeMap, header_size}
use lazyd.RangeMap.Slots.{Touches, slots_for_range-eq, div_ceil-above}
use lazyd.RangeMap.Update.{IsReady, files_after, in_range-Touches}
use lazyd.RangeMap.Effects.{range_filled, range_filled-IsWellFormed, IsReady-set}
use lazyd.Instance.{InstanceState, Range}
use lazyd.Instance.Amplify.{IsAligned}
use lazyd.Instance.Backed.{Backed, failed-Backed, target_same, touched_held}
use lazyd.Instance.Fetch.{Serves}
use lazyd.Instance.Tasks.{leaving, marked, with_disk, mark_slots, fill_slots}
use lazyd.Instance.Tasks.Facts.{WantsIn, InFile, Fact, Slots}
use lazyd.Instance.Tasks.Turns.{Turned}

-- The write of the slots from `a` up to `b` to the bitmap file: some of them, or all.
slots_written :
    (m : RangeMap) (d : Disk) (a b : ℕ)
    → (bytes : List ℕ) × (length bytes ≤ b - a)
      × ((write_all_at m.file (replicate (b - a) 1) (header_size + a) d).1.files
          ≡ files_after (record { map = m; disk = d }) a bytes)
unfolding write_all_at
slots_written m d a b = elim (Outcome-cases (d.plan d.calls)) [
  | inl (n, e, q) ↦ (
    take n (replicate (b - a) 1),
    omega (arith, length-take {A = ℕ} n (replicate (b - a) 1), length-replicate {A = ℕ} (b - a) 1),
    ground arith,
  )
  | inr (inl q) ↦
      (replicate (b - a) 1, omega (arith, length-replicate {A = ℕ} (b - a) 1), ground arith)
  | inr (inr (n, q)) ↦
      (replicate (b - a) 1, omega (arith, length-replicate {A = ℕ} (b - a) 1), ground arith)
]

module _ (blob : ℕ → ℕ) (s : InstanceState) (v : Serves blob s) (offset len : ℕ) (range : Range)
    (w : WantsIn s offset len range) (held : InFile blob s range range.len) where
  abbrev map : RangeMap
  map = s.inst.range_map

  abbrev aligned : IsAligned map.unit_bytes map.blob_size range
  aligned = w.amplified.aligned

  abbrev slot_start : ℕ
  slot_start = range.offset / map.unit_bytes

  abbrev slot_end : ℕ
  slot_end = div_ceil (range.offset + range.len) map.unit_bytes

  abbrev went : Result (Unit {0}) × Disk
  went =
      write_all_at map.file (replicate (slot_end - slot_start) 1) (header_size + slot_start) s.disk

  mark_slots-eq :
      mark_slots offset len range s
      ≡ (marked offset len range slot_start slot_end went.0, with_disk s went.1)
  unfolding mark_slots
  mark_slots-eq =
      let some_slots =
        div_ceil-above range.offset (range.offset + range.len) map.unit_bytes v.backed.map.unit_pos
          (omega (arith, aligned.some_bytes)) in
      rw
        (
          slots_for_range-eq map range.offset range.len v.backed.map aligned.some_bytes
              aligned.within,
          mark_slots,
        )
        (ground arith)

  marked-Fact :
      (t : InstanceState) (r : Result (Unit {0}))
      → WantsIn t offset len range
      → InFile blob t range range.len
      → Slots t range slot_start slot_end
      → Fact blob t (marked offset len range slot_start slot_end r)
  marked-Fact t (err e) want file slots = (want, λ z. cc)
  marked-Fact t (ok tt) want file slots = (want, file, slots)

  pub mark_slots-Turned :
      Turned blob s (mark_slots offset len range s).0 (mark_slots offset len range s).1
  mark_slots-Turned =
      let (bytes, short, q) = slots_written map s.disk slot_start slot_end in
      let same =
        target_same blob s.inst.config.target_path map s.disk v.backed range.offset range.len
          aligned.some_bytes aligned.within aligned.start aligned.stop held went.1 bytes short q in
      rw mark_slots-eq (record {
        serves = record {
          backed =
              failed-Backed blob s.inst.config.target_path map s.disk v.backed range.offset
                range.len aligned.some_bytes aligned.within aligned.start aligned.stop held went.1
                bytes short q;
          consistent = v.consistent;
        };
        grows = record {
          config = refl;
          file = refl;
          unit = refl;
          size = refl;
          ready = λ i h. h;
          good = λ i h. same i ∙ h;
        };
        fact =
            marked-Fact (with_disk s went.1) went.0 w (λ i lo hi. same i ∙ held i lo hi)
              (refl, refl);
      })

  abbrev after : RangeMap
  after = range_filled map range.offset range.len v.backed.map aligned.some_bytes aligned.within 1

  after-Ready :
      (i : ℕ)
      → IsReady after i
        ↔ (IsReady map i ⊎ Touches map range.offset (range.offset + range.len) (i / map.unit_bytes))
  after-Ready =
      IsReady-set map range.offset range.len v.backed.map aligned.some_bytes aligned.within

  after-Backed : Backed blob s.inst.config.target_path after s.disk
  after-Backed = record {
    map =
        range_filled-IsWellFormed map range.offset range.len v.backed.map aligned.some_bytes
          aligned.within 1;
    apart = v.backed.apart;
    memory = λ i lt h. elim ((after-Ready i).0 h) [
      | inl old ↦ v.backed.memory i lt old
      | inr t ↦
          touched_held blob s.inst.config.target_path map s.disk v.backed range.offset range.len
            aligned.some_bytes aligned.within aligned.start aligned.stop held i lt t
    ];
    stored = v.backed.stored;
  }

  pub fill_slots-Turned :
      Turned blob s (leaving offset len range (ok tt)) (fill_slots slot_start slot_end s)
  fill_slots-Turned = record {
    serves = record {
      backed = after-Backed;
      consistent = record {
        map = after-Backed.map;
        unit = v.consistent.unit;
        size = v.consistent.size;
      };
    };
    grows = record {
      config = refl;
      file = refl;
      unit = refl;
      size = refl;
      ready = λ i h. (after-Ready i).1 (inl h);
      good = λ i h. h;
    };
    fact = (
      w,
      λ z i lo hi. (
        omega (arith, w.within),
        (after-Ready i).1 (
            inr (
              in_range-Touches map range.offset (range.offset + range.len) i v.backed.map.unit_pos
                (omega (arith, w.amplified.holds)) (omega (arith, w.amplified.holds)))),
      ),
    );
  }
