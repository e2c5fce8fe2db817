-- ===== src/Control/Http/Joined.antt =====
-- A head of several lines: where its blank line is, and what its lines are.
use lazyd.Base.{
  ℕ, suc, ◌+◌, ◌≡◌, refl, ap, sym, subst, append_assoc, length-append, ◌∙◌, arith, Text, Bytes,
  text_eq, Bool, true, false, ◌||◌, some, List, [], ◌∷◌, ◌++◌, length, any, ◌==◌,
}
use lazyd.Control.Http.{blank_line, lines_of, all_lines, crlf}

abbrev pub is_break : ℕ → Bool
is_break c = c == 10 || c == 13

-- Without a carriage return or a line feed
abbrev pub IsPlain : Text → Type 0
IsPlain line = any is_break line ≡ false

abbrev pub is_line : Text → Bool
is_line [] = false
is_line (c ∷ s) = true

-- A line that may stand behind another: it is plain and not empty.
abbrev pub AllLines : List Text → Type 0
AllLines [] = Unit
AllLines (m ∷ ms) = (is_line m ≡ true) × (any is_break m ≡ false) × AllLines ms

abbrev pub joined : Text → List Text → Text
joined line [] = line
joined line (m ∷ ms) = line ++ (crlf ++ joined m ms)

pub any-parts :
    (p : ℕ → Bool) (c : ℕ) (s : Text) → any p (c ∷ s) ≡ false → (p c ≡ false) × (any p s ≡ false)
any-parts p c s h = ground arith

last-blank :
    (line : Text) (body : Bytes)
    → IsPlain line
    → blank_line (line ++ (crlf ++ (crlf ++ body))) ≡ some (length line)
unfolding blank_line text_eq
last-blank [] body h = refl
last-blank (b ∷ line) body h =
    let (here, rest) = any-parts is_break b line h in ground (arith, last-blank line body rest)

before-blank :
    (line : Text) (c : ℕ) (s : Text) (n : ℕ)
    → IsPlain line
    → is_break c ≡ false
    → blank_line (c ∷ s) ≡ some n
    → blank_line (line ++ (crlf ++ (c ∷ s))) ≡ some (length line + (2 + n))
unfolding blank_line text_eq
before-blank [] c s n h e q = ground arith
before-blank (b ∷ line) c s n h e q =
    let (here, rest) = any-parts is_break b line h in
    ground (arith, before-blank line c s n rest e q)

lines_of-last :
    (b : ℕ) (line : Text) → IsPlain (b ∷ line) → lines_of (b ∷ line) ≡ some (b ∷ line, [])
unfolding lines_of
lines_of-last b [] h = ground arith
lines_of-last b (c ∷ line) h =
    let (here, rest) = any-parts is_break b (c ∷ line) h in
    let (there, _) = any-parts is_break c line rest in ground (arith, lines_of-last c line rest)

lines_of-line :
    (line : Text) (s : Text)
    → IsPlain line
    → lines_of (line ++ (crlf ++ s)) ≡ some (line, all_lines (lines_of s))
unfolding lines_of
lines_of-line [] s h = refl
lines_of-line (b ∷ line) s h =
    let (here, rest) = any-parts is_break b line h in ground (arith, lines_of-line line s rest)

joined-cons : (c : ℕ) (m : Text) (ms : List Text) → joined (c ∷ m) ms ≡ c ∷ joined m ms
joined-cons c m [] = refl
joined-cons c m (n ∷ ms) = refl

-- The first blank line is behind the last of the lines.
pub blank_line-joined :
    (line : Text) (ms : List Text) (body : Bytes)
    → IsPlain line
    → AllLines ms
    → blank_line (joined line ms ++ (crlf ++ (crlf ++ body))) ≡ some (length (joined line ms))
blank_line-joined line [] body h all = last-blank line body h
blank_line-joined line ([] ∷ ms) body h all = absurd cc
blank_line-joined line ((c ∷ m) ∷ ms) body h (_, plain, all) =
    let later = blank_line-joined (c ∷ m) ms body plain all in
    let rest : Text = joined m ms in
    let tail : Bytes = crlf ++ (crlf ++ body) in
    let there : blank_line (c ∷ (rest ++ tail)) ≡ some (suc (length rest)) =
      subst (λ t. blank_line (t ++ tail) ≡ some (length t)) (joined-cons c m ms) later in
    let found =
      before-blank line c (rest ++ tail) (suc (length rest)) h (any-parts is_break c m plain).0
        there in
    let size : length (line ++ (crlf ++ (c ∷ rest))) ≡ length line + (2 + suc (length rest)) =
      omega (arith, length-append line (crlf ++ (c ∷ rest))) in
    rw (joined-cons c m ms)
      (ap blank_line (append_assoc line (crlf ++ (c ∷ rest)) tail) ∙ found ∙ ap some (sym size))

pub lines_of-joined :
    (b : ℕ) (line : Text) (ms : List Text)
    → IsPlain (b ∷ line)
    → AllLines ms
    → lines_of (joined (b ∷ line) ms) ≡ some (b ∷ line, ms)
lines_of-joined b line [] h all = lines_of-last b line h
lines_of-joined b line ([] ∷ ms) h all = absurd cc
lines_of-joined b line ((c ∷ m) ∷ ms) h (_, plain, all) =
    lines_of-line (b ∷ line) (joined (c ∷ m) ms) h
    ∙ ap (λ r. some (b ∷ line, all_lines r)) (lines_of-joined c m ms plain all)
