-- ===== src/RangeMap/Only.antt =====
-- An update of a range map writes no file but the map's own, on any range and on every outcome.
use lazyd.Base.{ℕ, ◌≡◌, refl, ap, ◌∙◌, inl, inr, Text, text_eq, false, ◌==◌, Bool-cases}
use lazyd.Exec.{Result-cases}
use lazyd.RangeMap.{MapState, slots_for_range, update_range, write_slots}
use lazyd.RangeMap.Update.{write_slots-Wrote, files_after-other}

-- The files of a range map and of its disk behind `t` are those of `s`, but for the map's own.
pub record OnlyMap (s t : MapState) : Type 0 where
  pub file : t.map.file ≡ s.map.file
  pub others : (q : Text) → text_eq s.map.file q ≡ false → t.disk.files q ≡ s.disk.files q

write_slots-OnlyMap : (a b value : ℕ) (s : MapState) → OnlyMap s (write_slots a b value s).1
write_slots-OnlyMap a b value s = elim (write_slots-Wrote a b value s) [
  | inl (q, e, f) ↦ record {
    file = ap (λ m. m.file) e;
    others = λ p h. ap (λ g. g p) f ∙ files_after-other s a _ p h;
  }
  | inr (x, n, q, e, f) ↦ record {
    file = ap (λ m. m.file) e;
    others = λ p h. ap (λ g. g p) f ∙ files_after-other s a _ p h;
  }
]

pub update_range-OnlyMap :
    (start len value : ℕ) (s : MapState) → OnlyMap s (update_range start len value s).1
unfolding update_range
update_range-OnlyMap start len value s = elim (Result-cases (slots_for_range s.map start len)) [
  | inr (e, q) ↦ rw q (record { file = refl; others = λ p h. refl })
  | inl ((a, b), q) ↦ elim (Bool-cases (a == b)) [
    | inl h ↦ rw (q, h) (record { file = refl; others = λ p k. refl })
    | inr h ↦ rw (q, h) (write_slots-OnlyMap a b value s)
  ]
]
