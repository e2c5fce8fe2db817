-- ===== src/RangeMap/Recovery.antt =====
-- `RangeMap::recovery_reconcile`: after a restart, a slot stays set only if the cache file has data
-- in all of its range.
pub mod Slot
mod Loop
pub mod Exact
pub mod Leaves
use lazyd.Base.{
  ℕ, zero, suc, ◌+◌, ◌*◌, ◌/◌, ◌≤◌, ◌<◌, ◌≡◌, refl, ap, ◌∙◌, ◌⊎◌, inl, inr, ◌↔◌, Bool, true, false,
  not, List, [], ◌∷◌, length, get_or, arith, if◌then◌else◌, Text, Bool-cases,
}
use lazyd.Errors.{Error, Result, ok, err}
use lazyd.Exec.{Exec, pure, lift, gets, when, ◌>>=◌, ◌>>◌}
use lazyd.RangeMap.{RangeMap, MapState, is_set, slot_range, clear_range_ready}
use lazyd.RangeMap.Presence.{Lseek, range_is_present}

-- The indices of the slots that are set, from the one with index `index` on.
unfoldable pub ready_slots : ℕ → List ℕ → List ℕ
ready_slots index [] = []
ready_slots index (slot ∷ slots) =
    let rest = ready_slots (index + 1) slots in if is_set slot then index ∷ rest else rest

module _ (lseek : Lseek) (layer : Text) where
  -- The body of the loop.
  unfoldable pub reconcile_slot : ℕ → Exec MapState Unit
  reconcile_slot slot = do
    m ← gets (λ s. s.map)
    (offset, len) ← lift (slot_range m slot)
    d ← gets (λ s. s.disk)
    present ← lift (range_is_present lseek d layer offset len)
    if present then pure tt else clear_range_ready offset len

  unfoldable pub reconcile_slots : List ℕ → Exec MapState Unit
  reconcile_slots [] = pure tt
  reconcile_slots (slot ∷ slots) = do reconcile_slot slot; reconcile_slots slots

  unfoldable pub recovery_reconcile : Exec MapState Unit
  recovery_reconcile = do m ← gets (λ s. s.map); reconcile_slots (ready_slots 0 m.slots)
