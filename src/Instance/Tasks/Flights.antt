-- ===== src/Instance/Tasks/Flights.antt =====
-- The ranges in flight as a list: what `reserve_inflight` and the drop of a guard do to it, and
-- which of the two a turn does.
use lazyd.Base.{
  ◌+◌, ◌<◌, ◌≡◌, refl, inl, inr, Bool, true, false, not, ◌||◌, ◌&&◌, List, [], ◌∷◌, ◌++◌, any,
  retain, arith, Bool-cases, u64_end,
}
use lazyd.Instance.{Range, end, overlaps, range_eq}
use lazyd.Instance.Ensure.{overlaps_self, range_eq_refl}

pub range_eq→eq : (r q : Range) → range_eq r q ≡ true → r ≡ q
unfolding range_eq
range_eq→eq r q h = grind arith

abbrev pub is_in : Range → List Range → Bool
is_in r xs = any (range_eq r) xs

abbrev pub released : Range → List Range → List Range
released q xs = retain (λ item. not (range_eq item q)) xs

-- A range in the list, beside a range that overlaps none of it
pub is_in-free :
    (r range : Range) (xs : List Range)
    → is_in r xs ≡ true
    → any (λ item. overlaps item range) xs ≡ false
    → overlaps r range ≡ false
is_in-free r range [] h free = cc
is_in-free r range (x ∷ xs) h free = elim (Bool-cases (range_eq r x)) [
  | inl q ↦ let e = range_eq→eq r x q in ground arith
  | inr q ↦ is_in-free r range xs (ground arith) (ground arith)
]

-- A range that overlaps some of the list overlaps one that is in it.
pub busy-is_in :
    (range : Range) (xs : List Range)
    → any (λ item. overlaps item range) xs ≡ true
    → (r : Range) × (is_in r xs ≡ true) × (overlaps r range ≡ true)
busy-is_in range [] h = cc
busy-is_in range (x ∷ xs) h = elim (Bool-cases (overlaps x range)) [
  | inl q ↦ (x, rw (range_eq_refl x) refl, q)
  | inr q ↦ let (r, inside, over) = busy-is_in range xs (ground arith) in (r, ground arith, over)
]

pub is_in-append :
    (r q : Range) (xs : List Range) → is_in r (xs ++ q ∷ []) ≡ (is_in r xs || range_eq r q)
is_in-append r q [] = ground arith
is_in-append r q (x ∷ xs) = ground (arith, is_in-append r q xs)

pub is_in-released :
    (r q : Range) (xs : List Range) → is_in r (released q xs) ≡ (is_in r xs && not (range_eq r q))
unfolding retain
is_in-released r q [] = refl
is_in-released r q (x ∷ xs) = elim (Bool-cases (range_eq r x)) [
  | inl h ↦ let e = range_eq→eq r x h in ground (arith, is_in-released r q xs)
  | inr h ↦ ground (arith, is_in-released r q xs)
]

pub overlaps-sym :
    (r q : Range)
    → r.offset + r.len < u64_end
    → q.offset + q.len < u64_end
    → overlaps r q ≡ overlaps q r
unfolding overlaps end
overlaps-sym r q fits_r fits_q = ground arith

-- Ranges that do not overlap are different, unless they are empty.
pub apart-differ :
    (r q : Range)
    → 0 < q.len
    → q.offset + q.len < u64_end
    → overlaps r q ≡ false
    → range_eq r q ≡ false
apart-differ r q pos fits h = elim (Bool-cases (range_eq r q)) [
  | inr e ↦ e
  | inl e ↦ let o = overlaps_self r q pos fits e in cc
]
