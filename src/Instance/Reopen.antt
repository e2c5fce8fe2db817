-- ===== src/Instance/Reopen.antt =====
-- What recovery after a restart leaves of the safety of the cache: it clears slots, in the file and
-- in memory, and sets none.
pub mod Recovery
use mathlib.Core.Path.{subst₂}
use lazyd.Base.{
  ℕ, zero, suc, ◌+◌, ◌-◌, ◌*◌, ◌/◌, ◌≤◌, ◌<◌, ◌≡◌, refl, ap, sym, subst, ◌∙◌, ◌⊎◌, inl, inr, Text,
  text_eq, Bool, Option, true, false, ◌&&◌, some, List, [], ◌∷◌, length, get_or, take, replicate,
  ltb, leb, if◌then◌else◌, arith, Bool-cases,
}
use lazyd.Errors.{Result, Error, ok, err}
use lazyd.Exec.{Result-cases, continue, pure}
use lazyd.Disk.{Disk, File, splice, file_at}
use lazyd.Disk.Laws.{byte_of-splice, put_file-same}
use lazyd.RangeMap.{RangeMap, MapState, is_set, header_size, slot_range, clear_range_ready}
use lazyd.RangeMap.Slots.{IsWellFormed, slot_range-eq}
use lazyd.RangeMap.Update.{
  IsReady, filled, filled-IsWellFormed, get_or-filled, files_after, files_after-other, Wrote,
}
use lazyd.RangeMap.Presence.{Lseek, range_is_present}
use lazyd.RangeMap.Recovery.{ready_slots, reconcile_slot, reconcile_slots, recovery_reconcile}
use lazyd.RangeMap.Recovery.Slot.{AllBelow, ready_slots-AllBelow, len_of, clear_slot-Wrote}
use lazyd.Instance.Write.{byte_at}
use lazyd.Instance.Backed.{Backed, byte_at-same}

zeros_take : (n m k : ℕ) → ◌≡◌ {A = ℕ} (get_or (take n (replicate m 0)) k 0) 0
zeros_take zero m k = refl
zeros_take (suc n) zero k = refl
zeros_take (suc n) (suc m) zero = refl
zeros_take (suc n) (suc m) (suc k) = zeros_take n m k

zeros : (m k : ℕ) → ◌≡◌ {A = ℕ} (get_or (replicate m 0) k 0) 0
zeros zero k = refl
zeros (suc m) zero = refl
zeros (suc m) (suc k) = zeros m k

unset_if :
    (c : Bool) (x v g : ℕ) → v ≡ 0 → x ≡ (if c then v else g) → is_set x ≡ true → is_set g ≡ true
unset_if c x v g z e h = ground arith

module _ (s : MapState) (e : Disk) (a : ℕ) (bytes : List ℕ) (q : e.files ≡ files_after s a bytes)
    (clear : (k : ℕ) → get_or bytes k 0 ≡ 0) where
  slot_byte-clear :
      (k : ℕ)
      → is_set (byte_at e s.map.file (header_size + k)) ≡ true
      → is_set (byte_at s.disk s.map.file (header_size + k)) ≡ true
  unfolding byte_at
  slot_byte-clear k =
      let here =
        ap (λ (g : Text → Option File). g s.map.file) q ∙ put_file-same s.disk.files s.map.file _ in
      unset_if
        (leb (header_size + a) (header_size + k)
          && ltb (header_size + k) (header_size + a + length bytes))
        _ (get_or bytes (header_size + k - (header_size + a)) 0) _
        (clear (header_size + k - (header_size + a)))
        (rw here
          (byte_of-splice (file_at s.disk s.map.file) (header_size + a) bytes (header_size + k)))

-- A map and a disk that are backed, behind a clearing of slots.
module _ (blob : ℕ → ℕ) (target : Text) (s : MapState) (b : Backed blob target s.map s.disk) where
  target_kept :
      (e : Disk) (a : ℕ) (bytes : List ℕ) (i : ℕ)
      → e.files ≡ files_after s a bytes
      → byte_at e target i ≡ byte_at s.disk target i
  target_kept e a bytes i q =
      byte_at-same s.disk e target i
        (ap (λ (g : Text → Option File). g target) q ∙ files_after-other s a bytes target b.apart.0)

  filled_set :
      (slot k : ℕ)
      → slot < s.map.slot_count
      → is_set (get_or (filled s.map slot (slot + 1) 0).slots k 0) ≡ true
      → is_set (get_or s.map.slots k 0) ≡ true
  filled_set slot k lt h =
      unset_if (leb slot k && ltb k (slot + 1)) _ 0 _ refl
        (get_or-filled s.map slot (slot + 1) 0 k (omega arith) (omega arith) b.map) h

  pub cleared-Backed :
      (slot : ℕ) (r : Result (Unit {0})) (t : MapState)
      → slot < s.map.slot_count
      → Wrote s slot (slot + 1) 0 r t
      → Backed blob target t.map t.disk
  cleared-Backed slot r t lt (inl (done, m, f)) =
      let unset = slot_byte-clear s t.disk slot _ f (zeros (slot + 1 - slot)) in
      let same = λ (i : ℕ). target_kept t.disk slot _ i f in
      subst (λ x. Backed blob target x t.disk) (sym m)
        (record {
          map = filled-IsWellFormed s.map slot (slot + 1) 0 (omega arith) (omega arith) b.map;
          apart = b.apart;
          memory =
              λ i below h. same i ∙ b.memory i below (filled_set slot (i / s.map.unit_bytes) lt h);
          stored = λ i below h. same i ∙ b.stored i below (unset (i / s.map.unit_bytes) h);
        })
  cleared-Backed slot r t lt (inr (x, n, failed, m, f)) =
      let unset = slot_byte-clear s t.disk slot _ f (zeros_take n (slot + 1 - slot)) in
      let same = λ (i : ℕ). target_kept t.disk slot _ i f in
      subst (λ x. Backed blob target x t.disk) (sym m)
        (record {
          map = b.map;
          apart = b.apart;
          memory = λ i below h. same i ∙ b.memory i below h;
          stored = λ i below h. same i ∙ b.stored i below (unset (i / s.map.unit_bytes) h);
        })
