-- ===== src/RangeMap/Fill.antt =====
-- The vector of slots under `slots[a..b]` and `slots[a..b].fill(value)`, entry by entry.
use lazyd.Base.{
  get_or-drop, ℕ, zero, suc, ◌+◌, ◌-◌, ◌≤◌, ◌<◌, ◌≡◌, refl, ap, sym, subst, ◌∙◌, Bool, true, ◌&&◌,
  List, [], ◌∷◌, ◌++◌, length, get_or, take, drop, replicate, all, arith, leb, ltb, if◌then◌else◌,
  ◌↔◌, length-append, length-take, length-drop, length-replicate,
}
use lazyd.RangeMap.{slice, fill}

get_or-replicate_append :
    (n v : ℕ) (ys : List ℕ) (k d : ℕ)
    → get_or (replicate n v ++ ys) k d ≡ (if ltb k n then v else get_or ys (k - n) d)
get_or-replicate_append zero v ys k d = let e : k - 0 ≡ k = omega arith in ground (arith, e)
get_or-replicate_append (suc n) v ys zero d = ground arith
get_or-replicate_append (suc n) v ys (suc k) d = ground (arith, get_or-replicate_append n v ys k d)

pub get_or-fill :
    (a b v : ℕ) (xs : List ℕ) (k : ℕ)
    → a ≤ b
    → b ≤ length xs
    → get_or (fill a b v xs) k 0 ≡ (if leb a k && ltb k b then v else get_or xs k 0)
get_or-fill zero b v xs k h l =
    ground
      (arith, get_or-replicate_append (b - 0) v (drop b xs) k 0, get_or-drop b xs (k - (b - 0)) 0)
get_or-fill (suc a) b v [] k h l = absurd (omega arith)
get_or-fill (suc a) zero v (x ∷ xs) k h l = absurd (omega arith)
get_or-fill (suc a) (suc b) v (x ∷ xs) zero h l = ground arith
get_or-fill (suc a) (suc b) v (x ∷ xs) (suc k) h l =
    let e : suc b - suc a ≡ b - a = omega arith in rw e (ground (arith, get_or-fill a b v xs k))

pub length-fill :
    (a b v : ℕ) (xs : List ℕ) → a ≤ b → b ≤ length xs → length (fill a b v xs) ≡ length xs
length-fill a b v xs h l =
    simp (length-append, length-take, length-replicate, length-drop) (omega arith)

all-take :
    (p : ℕ → Bool) (n : ℕ) (xs : List ℕ)
    → all p (take n xs) ≡ true
    → (k : ℕ) → k < n
    → k < length xs
    → p (get_or xs k 0) ≡ true
all-take p zero xs h k lt l = absurd (omega arith)
all-take p (suc n) [] h k lt l = absurd (omega arith)
all-take p (suc n) (x ∷ xs) h zero lt l = ground arith
all-take p (suc n) (x ∷ xs) h (suc k) lt l =
    all-take p n xs (ground arith) k (omega arith) (omega arith)

all-take_of :
    (p : ℕ → Bool) (n : ℕ) (xs : List ℕ)
    → ((k : ℕ) → k < n → p (get_or xs k 0) ≡ true)
    → all p (take n xs) ≡ true
all-take_of p zero xs h = refl
all-take_of p (suc n) [] h = refl
all-take_of p (suc n) (x ∷ xs) h =
    ground (arith, h 0, all-take_of p n xs (λ k lt. h (suc k) (omega arith)))

-- Whether all slots of a slice pass a test is whether each of them does.
pub all-slice_iff :
    (p : ℕ → Bool) (a b : ℕ) (xs : List ℕ)
    → b ≤ length xs
    → (all p (slice a b xs) ≡ true) ↔ ((k : ℕ) → a ≤ k → k < b → p (get_or xs k 0) ≡ true)
all-slice_iff p a b xs l = (
  λ h k lo hi.
      let e : a + (k - a) ≡ k = omega arith in
      subst (λ j. p j ≡ true) (get_or-drop a xs (k - a) 0 ∙ ap (λ j. get_or xs j 0) e)
        (all-take p (b - a) (drop a xs) h (k - a) (omega arith) (omega (arith, length-drop a xs))),
  λ h. all-take_of p (b - a) (drop a xs) (λ k lt.
      subst (λ j. p j ≡ true) (sym (get_or-drop a xs k 0)) (h (a + k) (omega arith) (omega arith))),
)
