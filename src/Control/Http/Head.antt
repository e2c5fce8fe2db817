-- ===== src/Control/Http/Head.antt =====
-- The end of the head of a request.
use lazyd.Base.{
  ℕ, zero, suc, ◌+◌, ◌-◌, ◌≤◌, ◌<◌, ◌≡◌, refl, ap, ◌⊎◌, inl, inr, arith, Bytes, text_eq,
  text_eq_sound, true, false, none, some, Bool-cases, [], ◌∷◌, length, take, drop, length-take,
  length-drop,
}
use lazyd.Control.Http.{blank_line, find_header_end}

-- CR LF CR LF
abbrev pub blank : Bytes
blank = 13 ∷ 10 ∷ 13 ∷ 10 ∷ []

-- The first blank line of the bytes is at `pos`.
pub record FirstAt (bytes : Bytes) (pos : ℕ) : Type 0 where
  pub here : take 4 (drop pos bytes) ≡ blank
  pub first : (i : ℕ) → i < pos → text_eq (take 4 (drop i bytes)) blank ≡ false

hit :
    (b : ℕ) (bytes : Bytes)
    → text_eq (take 4 (b ∷ bytes)) blank ≡ true
    → blank_line (b ∷ bytes) ≡ some 0
unfolding blank_line
hit b bytes h = rw h refl

missed :
    (b : ℕ) (bytes : Bytes)
    → text_eq (take 4 (b ∷ bytes)) blank ≡ false
    → blank_line bytes ≡ none
    → blank_line (b ∷ bytes) ≡ none
unfolding blank_line
missed b bytes h q = rw (h, q) refl

later :
    (b : ℕ) (bytes : Bytes) (n : ℕ)
    → text_eq (take 4 (b ∷ bytes)) blank ≡ false
    → blank_line bytes ≡ some n
    → blank_line (b ∷ bytes) ≡ some (suc n)
unfolding blank_line
later b bytes n h q = rw (h, q) refl

Found : Bytes → Type 0
Found bytes =
    ((blank_line bytes ≡ none) × ((i : ℕ) → text_eq (take 4 (drop i bytes)) blank ≡ false))
    ⊎ ((pos : ℕ) × (blank_line bytes ≡ some pos) × FirstAt bytes pos)

drop-nil : (i : ℕ) → text_eq (take 4 (drop i [])) blank ≡ false
unfolding text_eq
drop-nil zero = refl
drop-nil (suc i) = refl

blank_line-Found : (bytes : Bytes) → Found bytes
unfolding Found
blank_line-Found [] = inl (unfold blank_line in refl, drop-nil)
blank_line-Found (b ∷ bytes) = elim (Bool-cases (text_eq (take 4 (b ∷ bytes)) blank)) [
  | inl h ↦ inr (
    zero,
    hit b bytes h,
    record {
      here = text_eq_sound (take 4 (b ∷ bytes)) blank h;
      first = λ i lt. absurd (omega arith);
    },
  )
  | inr h ↦ elim (blank_line-Found bytes) [
    | inl (q, absent) ↦ inl (missed b bytes h q, λ i. before b bytes h absent i)
    | inr (n, q, f) ↦ inr (
      suc n,
      later b bytes n h q,
      record { here = f.here; first = λ i lt. until b bytes n h f i lt },
    )
  ]
]
  where
    before :
        (b : ℕ) (bytes : Bytes)
        → text_eq (take 4 (b ∷ bytes)) blank ≡ false
        → ((i : ℕ) → text_eq (take 4 (drop i bytes)) blank ≡ false)
        → (i : ℕ) → text_eq (take 4 (drop i (b ∷ bytes))) blank ≡ false
    before b bytes h absent zero = h
    before b bytes h absent (suc i) = absent i

    until :
        (b : ℕ) (bytes : Bytes) (n : ℕ)
        → text_eq (take 4 (b ∷ bytes)) blank ≡ false
        → FirstAt bytes n
        → (i : ℕ) → i < suc n
        → text_eq (take 4 (drop i (b ∷ bytes))) blank ≡ false
    until b bytes n h f zero lt = h
    until b bytes n h f (suc i) lt = f.first i (omega arith)

fits : (bytes : Bytes) (pos : ℕ) → take 4 (drop pos bytes) ≡ blank → pos + 4 ≤ length bytes
fits bytes pos h =
    let n = ap length h in omega (arith, n, length-take 4 (drop pos bytes), length-drop pos bytes)

-- find_header_end gives nothing for bytes without a blank line; else the offset behind the first
-- one, which is at least 4 and within the bytes.
pub find_header_end_lem :
    (buf : Bytes)
    → ((find_header_end buf ≡ none) × ((i : ℕ) → text_eq (take 4 (drop i buf)) blank ≡ false))
      ⊎ ((n : ℕ) × (find_header_end buf ≡ some n)
          × (4 ≤ n)
          × (n ≤ length buf)
          × FirstAt buf (n - 4))
unfolding find_header_end Found
find_header_end_lem buf = elim (blank_line-Found buf) [
  | inl (q, absent) ↦ inl (rw (q, find_header_end) refl, absent)
  | inr (pos, q, f) ↦
      let back : pos + 4 - 4 ≡ pos = omega arith in
      inr (pos + 4, rw (q, find_header_end) refl, omega arith, fits buf pos f.here, rw back f)
]
