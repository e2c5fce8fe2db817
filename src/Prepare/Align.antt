-- ===== src/Prepare/Align.antt =====
-- `align_up`
use lazyd.Base.{
  ℕ, ◌+◌, ◌-◌, ◌*◌, ◌/◌, ◌%◌, ◌≤◌, ◌<◌, ◌≡◌, ◌⊎◌, inl, inr, arith, text, u64_end, ltb, ltb→lt,
  ltb→le, Bool-cases,
}
use lazyd.Errors.{ok, err, bad_request}
use lazyd.Prepare.{align_up}

rounded :
    (v a : ℕ)
    → 0 < a
    → ((v + (a - 1)) / a * a % a ≡ 0)
      × (v ≤ (v + (a - 1)) / a * a)
      × ((v + (a - 1)) / a * a < v + a)
rounded v a pos = (grind arith, grind arith, grind arith)

align_up-eq : (v a : ℕ) → 0 < a → v + (a - 1) < u64_end → align_up v a ≡ ok ((v + (a - 1)) / a * a)
unfolding align_up
align_up-eq v a pos fits =
    let low : (v + (a - 1)) / a * a ≤ v + (a - 1) = grind arith in ground arith

align_up-over :
    (v a : ℕ)
    → 0 < a
    → u64_end ≤ v + (a - 1)
    → align_up v a ≡ err (bad_request (text "pmem size overflows u64"))
unfolding align_up
align_up-over v a pos over = ground arith

-- For an alignment that is not zero, align_up gives the least multiple of it that is no less than
-- the value, or refuses the value, and then the value plus the alignment less one is no u64.
pub align_up_lem :
    (value alignment : ℕ)
    → 0 < alignment
    → ((r : ℕ) × (align_up value alignment ≡ ok r)
        × (r % alignment ≡ 0)
        × (value ≤ r)
        × (r < value + alignment))
      ⊎ ((align_up value alignment ≡ err (bad_request (text "pmem size overflows u64")))
          × (u64_end ≤ value + (alignment - 1)))
align_up_lem v a pos = elim (Bool-cases (ltb (v + (a - 1)) u64_end)) [
  | inl h ↦
      let fits : v + (a - 1) < u64_end = ltb→lt (v + (a - 1)) u64_end h in
      inl (
        (v + (a - 1)) / a * a,
        align_up-eq v a pos fits,
        (rounded v a pos).0,
        (rounded v a pos).1,
        (rounded v a pos).2,
      )
  | inr h ↦
      let over : u64_end ≤ v + (a - 1) = ltb→le (v + (a - 1)) u64_end h in
      inr (align_up-over v a pos over, over)
]
