-- ===== src/Control/Http/Lengths.antt =====
-- The length that a `Content-Length` header gives back.
use lazyd.Base.{
  ℕ, ◌+◌, ◌*◌, ◌<◌, ◌≡◌, refl, ap, ◌∙◌, arith, Text, text, decimal, decimal-read, decimal-any,
  decimal-ne, ◌≢◌, Bool, false, some, [], ◌∷◌, ◌++◌, any, ◌==◌, u64_end,
}
use lazyd.Control.{is_space}
use lazyd.Control.Http.Joined.{any-parts}
use lazyd.Control.Http.{
  trim_start, reverse_onto, trim, digits_value, parse_usize, split_once, eq_ignore_case,
  content_length,
}

-- Without white space
abbrev IsWord : Text → Type 0
IsWord s = any is_space s ≡ false

trim_start-word : (s : Text) → IsWord s → trim_start s ≡ s
unfolding trim_start
trim_start-word [] h = refl
trim_start-word (c ∷ s) h = let (here, rest) = any-parts is_space c s h in ground arith

reverse-twice : (s out : Text) → reverse_onto (reverse_onto s out) [] ≡ reverse_onto out s
unfolding reverse_onto
reverse-twice [] out = refl
reverse-twice (c ∷ s) out = reverse-twice s (c ∷ out)

any-reverse :
    (p : ℕ → Bool) (s out : Text)
    → any p s ≡ false
    → any p out ≡ false
    → any p (reverse_onto s out) ≡ false
unfolding reverse_onto
any-reverse p [] out h k = k
any-reverse p (c ∷ s) out h k =
    any-reverse p s (c ∷ out) (any-parts p c s h).1
      (let (here, rest) = any-parts p c s h in ground arith)

-- A space before a word is trimmed away.
trim-word : (s : Text) → IsWord s → trim (b' ' ∷ s) ≡ s
unfolding trim reverse_onto trim_start
trim-word s h =
    let back = any-reverse is_space s [] h refl in
    ap (λ t. reverse_onto (trim_start (reverse_onto t [])) []) (trim_start-word s h)
    ∙ ap (λ t. reverse_onto t []) (trim_start-word (reverse_onto s []) back)
    ∙ reverse-twice s []

digit_step :
    (d m : ℕ) (s : Text)
    → d < 10
    → m * 10 + d < u64_end
    → digits_value ((b'0' + d) ∷ s) m ≡ digits_value s (m * 10 + d)
unfolding digits_value
digit_step d m s lt small = ground arith

parse_usize-digits :
    (s : Text) → any (λ c. c == b'+') s ≡ false → s ≢ [] → parse_usize s ≡ digits_value s 0
unfolding parse_usize
parse_usize-digits [] h ne = absurd (ne refl)
parse_usize-digits (c ∷ []) h ne = refl
parse_usize-digits (c ∷ d ∷ s) h ne =
    let (here, _) = any-parts (λ b. b == b'+') c (d ∷ s) h in ground arith

parse_usize-decimal : (n : ℕ) → n < u64_end → parse_usize (decimal n) ≡ some n
unfolding digits_value
parse_usize-decimal n small =
    parse_usize-digits (decimal n) (decimal-any (λ c. c == b'+') (λ d lt. ground arith) n)
      (decimal-ne n)
    ∙ decimal-read digits_value u64_end digit_step n (omega arith) small
    ∙ ground arith

-- The header that `render_response` writes for a length gives the length back.
pub content_length-decimal :
    (n : ℕ) → n < u64_end → content_length (text "Content-Length: " ++ decimal n) ≡ some n
unfolding content_length split_once eq_ignore_case text
content_length-decimal n small =
    let word = decimal-any is_space (λ d lt. ground arith) n in
    ap parse_usize (trim-word (decimal n) word) ∙ parse_usize-decimal n small
