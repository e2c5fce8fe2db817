-- ===== src/Base/Texts/Decimal.antt =====
-- What the decimal digits of a number are and what they read as.
use Prim.Native.Nat.{ℕ, zero, suc, ◌+◌, ◌*◌, ◌/◌, ◌%◌, ◌<◌}
use mathlib.Core.Path.{◌≡◌, refl, ap, ◌∙◌}
use mathlib.Core.Logic.{inl, inr, ◌≢◌}
use mathlib.Core.Bool.{Bool, false}
use mathlib.Core.List.{[], ◌∷◌}
use native.Mathlib.Omega.{arith}
use lazyd.Base.Tests.{ltb, Bool-cases}
use lazyd.Base.Lists.{any}
use lazyd.Base.Texts.{Text, digits, decimal}

abbrev pub tens : ℕ → ℕ
tens zero = 1
tens (suc n) = 10 * tens n

-- A reader that takes a digit `d` behind the number `m` for `m * 10 + d`
module _ {ℓ} {A : Type ℓ} (read : Text → ℕ → A) (limit : ℕ)
    (step : (d m : ℕ) (s : Text)
      → d < 10
      → m * 10 + d < limit
      → read ((b'0' + d) ∷ s) m ≡ read s (m * 10 + d)) where
  digits-read :
      (fuel n : ℕ) (out : Text)
      → n < tens fuel
      → n < limit
      → read (digits fuel n out) 0 ≡ read out n
  unfolding digits
  digits-read zero n out lt small = let e : 0 ≡ n = omega arith in ap (read out) e
  digits-read (suc fuel) n out lt small = elim (Bool-cases (ltb n 10)) [
    | inl h ↦
        let e : 0 * 10 + n % 10 ≡ n = ground arith in
        rw h (step (n % 10) 0 out (omega arith) (omega (arith, e)) ∙ ap (read out) e)
    | inr h ↦
        let e : n / 10 * 10 + n % 10 ≡ n = omega arith in
        rw h (
          digits-read fuel (n / 10) ((b'0' + n % 10) ∷ out) (omega arith) (omega arith)
          ∙ step (n % 10) (n / 10) out (omega arith) (omega (arith, e))
          ∙ ap (read out) e)
  ]

  pub decimal-read : (n : ℕ) → n < tens 20 → n < limit → read (decimal n) 0 ≡ read [] n
  unfolding decimal
  decimal-read n lt small = digits-read 20 n [] lt small

-- What no digit has, no decimal number has.
module _ (p : ℕ → Bool) (none_of : (d : ℕ) → d < 10 → p (b'0' + d) ≡ false) where
  digits-any : (fuel n : ℕ) (out : Text) → any p out ≡ false → any p (digits fuel n out) ≡ false
  unfolding digits
  digits-any zero n out h = h
  digits-any (suc fuel) n out h =
      let here : any p ((b'0' + n % 10) ∷ out) ≡ false = rw (none_of (n % 10) (omega arith)) h in
      elim (Bool-cases (ltb n 10)) [
        | inl q ↦ rw q here
        | inr q ↦ rw q (digits-any fuel (n / 10) ((b'0' + n % 10) ∷ out) here)
      ]

  pub decimal-any : (n : ℕ) → any p (decimal n) ≡ false
  unfolding decimal
  decimal-any n = digits-any 20 n [] refl

digits-ne : (fuel n c : ℕ) (out : Text) → digits fuel n (c ∷ out) ≢ []
unfolding digits
digits-ne zero n c out = λ e. cc
digits-ne (suc fuel) n c out = elim (Bool-cases (ltb n 10)) [
  | inl h ↦ rw h (λ e. cc)
  | inr h ↦ rw h (digits-ne fuel (n / 10) (b'0' + n % 10) (c ∷ out))
]

-- There is at least one digit.
pub decimal-ne : (n : ℕ) → decimal n ≢ []
unfolding decimal digits
decimal-ne n = elim (Bool-cases (ltb n 10)) [
  | inl h ↦ rw h (λ e. cc)
  | inr h ↦ rw h (digits-ne 19 (n / 10) (b'0' + n % 10) [])
]
