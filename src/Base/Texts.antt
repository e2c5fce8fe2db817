-- ===== src/Base/Texts.antt =====
-- Text as its UTF-8 bytes.
pub mod Decimal
use Prim.Native.Nat.{ℕ, zero, suc, ◌+◌, ◌/◌, ◌%◌}
use Prim.Native.Char.{code}
use Prim.Native.String.{String}
use mathlib.Core.Path.{◌≡◌, refl, ap}
use mathlib.Core.Logic.{◌≢◌}
use mathlib.Core.Bool.{Bool, true, false, ◌&&◌}
use mathlib.Core.List.{List, [], ◌∷◌, ◌++◌}
use native.Mathlib.Omega.{arith}
use lazyd.Base.Tests.{◌==◌, ltb, if◌then◌else◌}
use lazyd.Base.Lists.{length, length-append}

abbrev pub Bytes : Type 0
Bytes = List ℕ

abbrev pub Text : Type 0
Text = Bytes

-- The bytes of an ASCII literal.
unfoldable pub text : String → Text
text String.[] = []
text (String.◌∷◌ c s) = code c ∷ text s

unfoldable pub text_eq : Text → Text → Bool
text_eq [] [] = true
text_eq (a ∷ s) (b ∷ t) = a == b && text_eq s t
text_eq _ _ = false

pub text_eq_sound : (s t : Text) → text_eq s t ≡ true → s ≡ t
unfolding text_eq
text_eq_sound [] [] h = refl
text_eq_sound [] (b ∷ t) h = cc
text_eq_sound (a ∷ s) [] h = cc
text_eq_sound (a ∷ s) (b ∷ t) h = ground (arith, text_eq_sound s t)

pub text_eq_refl : (s : Text) → text_eq s s ≡ true
unfolding text_eq
text_eq_refl [] = refl
text_eq_refl (a ∷ s) = ground (arith, text_eq_refl s)

pub text_eq_of_ne : (s t : Text) → s ≢ t → text_eq s t ≡ false
unfolding text_eq
text_eq_of_ne [] [] h = absurd (h refl)
text_eq_of_ne [] (b ∷ t) h = refl
text_eq_of_ne (a ∷ s) [] h = refl
text_eq_of_ne (a ∷ s) (b ∷ t) h = ground (arith, text_eq_sound s t)

-- A text that goes on is another text.
pub append-ne_self : (s t : Text) → t ≢ [] → s ≢ s ++ t
append-ne_self s [] h e = h refl
append-ne_self s (b ∷ t) h e = omega (arith, ap length e, length-append s (b ∷ t))

pub digits : ℕ → ℕ → Text → Text
digits zero n out = out
digits (suc fuel) n out =
    let out' = (b'0' + n % 10) ∷ out in
    let more = digits fuel (n / 10) out' in if ltb n 10 then out' else more

-- The decimal digits of a `u64`, of which there are at most 20.
unfoldable pub decimal : ℕ → Text
unfolding digits
decimal n = digits 20 n []

decimal_runs : decimal 18446744073709551615 ≡ text "18446744073709551615"
unfolding decimal text
decimal_runs = refl
