-- ===== src/Prepare/Keys.antt =====
-- `cache_key` and the paths that are made from it.
use lazyd.Base.{
  ℕ, ◌+◌, ◌≤◌, ◌≡◌, refl, ◌⊎◌, inl, inr, arith, Text, true, false, [], ◌∷◌, length, leb, ltb, ◌&&◌,
  ◌==◌, Bool-cases, if◌then◌else◌,
}
use lazyd.Prepare.{cache_key, is_kept, is_continuation}

-- An ASCII letter or digit, `-` or `_`; so neither `/` nor `.`
abbrev pub IsSafeByte : ℕ → Type 0
IsSafeByte c =
    ((b'a' ≤ c) × (c ≤ b'z'))
    ⊎ (((b'A' ≤ c) × (c ≤ b'Z')) ⊎ (((b'0' ≤ c) × (c ≤ b'9')) ⊎ ((c ≡ b'-') ⊎ (c ≡ b'_'))))

abbrev pub IsSafe : Text → Type 0
IsSafe [] = Unit {0}
IsSafe (c ∷ s) = IsSafeByte c × IsSafe s

-- The characters of a text in UTF-8: its bytes but for those from 128 to 191, which go on with one.
abbrev pub characters : Text → ℕ
characters [] = 0
characters (c ∷ s) = let rest = characters s in if leb 128 c && ltb c 192 then rest else rest + 1

key_char : ℕ → ℕ
key_char c = if is_kept c then c else b'-'

kept-IsSafeByte : (c : ℕ) → is_kept c ≡ true → IsSafeByte c
kept-IsSafeByte c h = elim (Bool-cases (leb b'a' c && leb c b'z')) [
  | inl a ↦ inl (ground arith, ground arith)
  | inr a ↦ elim (Bool-cases (leb b'A' c && leb c b'Z')) [
    | inl b ↦ inr (inl (ground arith, ground arith))
    | inr b ↦ elim (Bool-cases (leb b'0' c && leb c b'9')) [
      | inl d ↦ inr (inr (inl (ground arith, ground arith)))
      | inr d ↦ elim (Bool-cases (c == b'-')) [
        | inl e ↦ inr (inr (inr (inl (ground arith))))
        | inr e ↦ inr (inr (inr (inr (ground arith))))
      ]
    ]
  ]
]

IsSafeByte-kept : (c : ℕ) → IsSafeByte c → is_kept c ≡ true
IsSafeByte-kept c (inl h) = ground arith
IsSafeByte-kept c (inr (inl h)) = ground arith
IsSafeByte-kept c (inr (inr (inl h))) = ground arith
IsSafeByte-kept c (inr (inr (inr (inl h)))) = ground arith
IsSafeByte-kept c (inr (inr (inr (inr h)))) = ground arith

key_char-IsSafeByte : (c : ℕ) → IsSafeByte (key_char c)
unfolding key_char
key_char-IsSafeByte c = elim (Bool-cases (is_kept c)) [
  | inl h ↦ rw h (kept-IsSafeByte c h)
  | inr h ↦ rw h (inr (inr (inr (inl refl))))
]

-- The key of a digest is made of ASCII letters and digits, `-` and `_`.
pub cache_key-IsSafe : (digest : Text) → IsSafe (cache_key digest)
unfolding cache_key
cache_key-IsSafe [] = tt
cache_key-IsSafe (c ∷ digest) = elim (Bool-cases (is_continuation c)) [
  | inl h ↦ rw h (cache_key-IsSafe digest)
  | inr h ↦ rw h (unfold key_char in key_char-IsSafeByte c, cache_key-IsSafe digest)
]

-- Such a text is its own key.
pub cache_key-safe : (s : Text) → IsSafe s → cache_key s ≡ s
unfolding cache_key
cache_key-safe [] h = refl
cache_key-safe (c ∷ s) h =
    let kept = IsSafeByte-kept c h.0 in
    let low : is_continuation c ≡ false = ground arith in rw (low, kept, cache_key-safe s h.1) refl

length-cache_key : (digest : Text) → length (cache_key digest) ≡ characters digest
unfolding cache_key
length-cache_key [] = refl
length-cache_key (c ∷ digest) = elim (Bool-cases (is_continuation c)) [
  | inl h ↦ ground (arith, length-cache_key digest)
  | inr h ↦ ground (arith, length-cache_key digest)
]

-- For every digest, each byte of its key is an ASCII letter or digit, - or _, so neither / nor a
-- dot; the key has as many bytes as the digest has characters, so only an empty digest has an
-- empty key; a digest of such bytes is its own key; and the key of a key is the key.
pub cache_key_lem :
    (digest : Text)
    → IsSafe (cache_key digest)
      × (length (cache_key digest) ≡ characters digest)
      × (IsSafe digest → cache_key digest ≡ digest)
      × (cache_key (cache_key digest) ≡ cache_key digest)
cache_key_lem digest = (
  cache_key-IsSafe digest,
  length-cache_key digest,
  cache_key-safe digest,
  cache_key-safe (cache_key digest) (cache_key-IsSafe digest),
)
