-- ===== src/RangeMap/Recovery/Exact.antt =====
-- `recovery_reconcile` clears exactly the slots whose range has a hole.
use lazyd.Base.{ℕ, ◌/◌, ◌<◌, ◌≡◌, refl, false, List, arith, Text, text_eq}
use lazyd.Errors.{Result, ok}
use lazyd.Disk.{Disk}
use lazyd.RangeMap.{MapState}
use lazyd.RangeMap.Slots.{IsWellFormed}
use lazyd.RangeMap.Presence.{Lseek, SeekLaws}
use lazyd.RangeMap.Recovery.{ready_slots, recovery_reconcile}
use lazyd.RangeMap.Recovery.Slot.{IsMarked, In-ready_slots, ready_slots-AllBelow}
use lazyd.RangeMap.Recovery.Loop.{IsLoopState, reconcile_slots-end}

-- What recovery of `s` does if the bytes of the cache file at `IsData` are data and the others are
-- holes: no slot is set that was not set; a slot that was set stays set if each byte of its range
-- is data, also when recovery fails; and when it succeeds, each byte of a slot that is set is data.
abbrev pub Recovered : (ℕ → Type 0) → MapState → Result (Unit {0}) × MapState → Type 0
Recovered IsData s (r, t) =
    ((k : ℕ) → IsMarked t.map k → IsMarked s.map k)
    × ((k : ℕ)
        → IsMarked s.map k
        → ((i : ℕ) → i < s.map.blob_size → i / s.map.unit_bytes ≡ k → IsData i)
        → IsMarked t.map k)
    × (r ≡ ok tt
        → (k : ℕ) → IsMarked t.map k
        → (i : ℕ) → i < s.map.blob_size
        → i / s.map.unit_bytes ≡ k
        → IsData i)

-- Recovery of a well-formed map over a cache file that is not the map's own, with lseek as in its
-- manual, sets no slot, keeps each slot that was set and whose range is all data, also when it
-- fails, and after success each byte of a slot that is set is data.
pub recovery_reconcile_lem :
    (lseek : Lseek) (layer : Text) (IsData : ℕ → Type 0) (s : MapState)
    → IsWellFormed s.map
    → text_eq s.map.file layer ≡ false
    → ((d : Disk) → d.files layer ≡ s.disk.files layer → SeekLaws lseek d layer IsData)
    → Recovered IsData s (recovery_reconcile lseek layer s)
unfolding recovery_reconcile
recovery_reconcile_lem lseek layer IsData s w apart laws =
    let slots : List ℕ = ready_slots 0 s.map.slots in
    let start : IsLoopState lseek layer IsData s.map.unit_bytes s.map.blob_size s.map.slot_count
        (s.disk.files layer) s =
      record {
        unit = refl;
        blob_size = refl;
        slot_count = refl;
        wf = w;
        apart = apart;
        layer_file = refl;
      } in
    let (rec, done) =
      reconcile_slots-end lseek layer IsData s.map.unit_bytes s.map.blob_size s.map.slot_count
        (s.disk.files layer) laws slots s start
        (ready_slots-AllBelow 0 s.map.slot_count s.map.slots (omega (arith, w.sized))) in
    (
      rec.old,
      rec.kept,
      λ q k set. done q k (In-ready_slots 0 k s.map.slots (rec.old k set) k (omega arith)) set,
    )
