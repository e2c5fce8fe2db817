-- ===== src/Instance/Write.antt =====
-- `Instance::write_all_at`: what a loop of short writes leaves in the file.
pub mod Once
use mathlib.Core.Logic.{dif_pos, dif_neg}
use mathlib.Core.WellFounded.{Acc}
use native.Mathlib.Decide.{dec_lt}
use native.Mathlib.Bridge.{le_prop}
use lazyd.Base.{
  ℕ, suc, ◌+◌, ◌-◌, ◌≤◌, ◌<◌, ◌≡◌, refl, ap, sym, ltb→lt, ltb→le, ◌∙◌, Text, Bytes, text_eq, false,
  ◌&&◌, Option, some, [], ◌∷◌, length, get_or, take, drop, ltb, leb, if◌then◌else◌, arith, ◌⊎◌, inl,
  inr, length-take, length-drop, get_or-take, get_or-drop, min, Bool-cases,
}
use lazyd.Errors.{Error, io, Result, ok, err}
use lazyd.Disk.{File, Disk, byte_of, splice, put_file, file_at, write_at}
use lazyd.Disk.Laws.{byte_of-splice, put_file-same, put_file-other, Outcome-cases}
use lazyd.Instance.{
  Shorter, drop-Shorter, Acc-Shorter, write_round, write_zero, write_loop, write_all_at,
}

-- Byte `i` of the file at `path`, zero behind its end.
unfoldable pub byte_at : Disk → Text → ℕ → ℕ
byte_at d path i = byte_of (file_at d path) i

WroteSome : Text → Bytes → ℕ → Disk → Result ℕ → Disk → Type 0
WroteSome path bytes offset d r e =
    ((x : Error) × (r ≡ err x) × (e.files ≡ d.files))
    ⊎ ((n : ℕ) × (r ≡ ok n)
        × (n ≤ length bytes)
        × (e.files ≡ put_file d.files path (splice (file_at d path) offset (take n bytes))))

write_at-WroteSome :
    (path : Text) (bytes : Bytes) (offset : ℕ) (d : Disk)
    → WroteSome path bytes offset d
        (write_at path bytes offset d).0
        (write_at path bytes offset d).1
unfolding WroteSome write_at
write_at-WroteSome path bytes offset d = elim (Outcome-cases (d.plan d.calls)) [
  | inl (n, e, q) ↦ inl (io e, ground arith, ground arith)
  | inr (inl q) ↦ inr (length bytes, ground arith, omega arith, ground arith)
  | inr (inr (n, q)) ↦ inr (min n (length bytes), ground arith, omega arith, ground arith)
]

-- After a write of `bytes` at `offset` that ends with `r`: no other file has changed, nor a byte
-- outside the range; a byte within it is the new one or the old one, and the new one if the write
-- succeeded.
pub record Written (path : Text) (bytes : Bytes) (offset : ℕ) (d : Disk) (r : Result (Unit {0}))
    (e : Disk) : Type 0 where
  pub others : (q : Text) → text_eq path q ≡ false → e.files q ≡ d.files q
  pub outside :
      (i : ℕ) → (i < offset) ⊎ (offset + length bytes ≤ i) → byte_at e path i ≡ byte_at d path i
  pub inside :
      (k : ℕ)
      → k < length bytes
      → (byte_at e path (offset + k) ≡ get_or bytes k 0)
        ⊎ (byte_at e path (offset + k) ≡ byte_at d path (offset + k))
  pub complete :
      r ≡ ok tt → (k : ℕ) → k < length bytes → byte_at e path (offset + k) ≡ get_or bytes k 0

-- One write: the bytes that it took.
byte_at-put :
    (path : Text) (bytes : Bytes) (offset : ℕ) (d e : Disk) (n i : ℕ)
    → n ≤ length bytes
    → e.files ≡ put_file d.files path (splice (file_at d path) offset (take n bytes))
    → byte_at e path i ≡ (
        if leb offset i && ltb i (offset + n)
        then get_or bytes (i - offset) 0
        else byte_at d path i)
unfolding byte_at
byte_at-put path bytes offset d e n i h q =
    let f : File = splice (file_at d path) offset (take n bytes) in
    let here : e.files path ≡ some f =
      ap (λ (g : Text → Option File). g path) q ∙ put_file-same d.files path f in
    let len : length (take n bytes) ≡ n = omega (arith, length-take n bytes) in
    rw here (
      byte_of-splice (file_at d path) offset (take n bytes) i
      ∙ rw len (ground (arith, get_or-take n bytes (i - offset) 0)))

module _ (path : Text) (bytes : Bytes) (offset : ℕ) (d d1 e : Disk) (r : Result (Unit {0})) (n : ℕ)
    (h : n ≤ length bytes)
    (q : d1.files ≡ put_file d.files path (splice (file_at d path) offset (take n bytes)))
    (w : Written path (drop n bytes) (offset + n) d1 r e) where
  -- The bytes behind the first write.
  first :
      (i : ℕ)
      → byte_at d1 path i ≡ (
          if leb offset i && ltb i (offset + n)
          then get_or bytes (i - offset) 0
          else byte_at d path i)
  first i = byte_at-put path bytes offset d d1 n i h q

  rest_length : length (drop n bytes) + n ≡ length bytes
  rest_length = omega (arith, length-drop n bytes)

  -- Byte `offset + k` of the file, seen from the rest of the bytes.
  later :
      (k : ℕ)
      → n ≤ k
      → (offset + n + (k - n) ≡ offset + k) × (get_or (drop n bytes) (k - n) 0 ≡ get_or bytes k 0)
  later k le =
      let e' : n + (k - n) ≡ k = omega arith in
      (omega arith, get_or-drop n bytes (k - n) 0 ∙ ap (λ j. get_or bytes j 0) e')

  now : (k : ℕ) → k < n → byte_at e path (offset + k) ≡ get_or bytes k 0
  now k lt =
      let same : offset + k - offset ≡ k = omega arith in
      w.outside (offset + k) (inl (omega arith)) ∙ ground (arith, first (offset + k), same)

  -- A byte that the first write has not touched.
  untouched : (i : ℕ) → (i < offset) ⊎ (offset + n ≤ i) → byte_at d1 path i ≡ byte_at d path i
  untouched i out = ground (arith, first i)

  behind :
      (k : ℕ)
      → n ≤ k
      → k < length bytes
      → (byte_at e path (offset + k) ≡ get_or bytes k 0)
        ⊎ (byte_at e path (offset + k) ≡ byte_at d path (offset + k))
  behind k le lt = elim (w.inside (k - n) (omega (arith, rest_length))) [
    | inl a ↦ inl (ap (byte_at e path) (sym (later k le).0) ∙ a ∙ (later k le).1)
    | inr b ↦ inr (
        ap (byte_at e path) (sym (later k le).0)
        ∙ b
        ∙ ap (byte_at d1 path) (later k le).0
        ∙ untouched (offset + k) (inr (omega arith)))
  ]

  pub Written-round : Written path bytes offset d r e
  Written-round = record {
    others = λ p ne.
        w.others p ne ∙ ap (λ (g : Text → Option File). g p) q ∙ put_file-other d.files path p _ ne;
    outside = λ i out. elim out [
      | inl a ↦ w.outside i (inl (omega arith)) ∙ untouched i (inl a)
      | inr b ↦ w.outside i (inr (omega (arith, rest_length))) ∙ untouched i (inr (omega arith))
    ];
    inside = λ k lt. elim (Bool-cases (ltb k n)) [
      | inl a ↦ inl (now k (ltb→lt k n a))
      | inr b ↦ behind k (ltb→le k n b) lt
    ];
    complete = λ good k lt. elim (Bool-cases (ltb k n)) [
      | inl a ↦ now k (ltb→lt k n a)
      | inr b ↦
          ap (byte_at e path) (sym (later k (ltb→le k n b)).0)
          ∙ w.complete good (k - n) (omega (arith, rest_length, ltb→le k n b))
          ∙ (later k (ltb→le k n b)).1
    ];
  }

nil_of_length : (bytes : Bytes) → ¬ (0 < length bytes) → bytes ≡ []
nil_of_length [] h = refl
nil_of_length (b ∷ bytes) h = absurd (h (omega arith))

Written-refl :
    (path : Text) (bytes : Bytes) (offset : ℕ) (d e : Disk) (r : Result (Unit {0}))
    → e.files ≡ d.files
    → (r ≡ ok tt → bytes ≡ [])
    → Written path bytes offset d r e
unfolding byte_at
Written-refl path bytes offset d e r q z = record {
  others = λ p ne. ap (λ (g : Text → Option File). g p) q;
  outside = λ i out. rw q;
  inside = λ k lt. inr (rw q);
  complete = λ good k lt. absurd (let none_left = ap length (z good) in omega arith);
}

write_round-Written :
    (path : Text) (bytes : Bytes) (offset : ℕ) (d : Disk)
    (again : (n : ℕ) → 0 < n → Disk → Result (Unit {0}) × Disk) (out : Result ℕ × Disk)
    → WroteSome path bytes offset d out.0 out.1
    → ((n : ℕ) (h : 0 < n) (d1 : Disk)
        → Written path (drop n bytes) (offset + n) d1 (again n h d1).0 (again n h d1).1)
    → Written path bytes offset d (write_round again out).0 (write_round again out).1
unfolding write_round WroteSome
write_round-Written path bytes offset d again (err x, d1) wrote rest =
    Written-refl path bytes offset d d1 (err x) (ground arith) (λ z. cc)
write_round-Written path bytes offset d again (ok n, d1) (inl (x, q, _)) rest = cc
write_round-Written path bytes offset d again (ok n, d1) (inr (m, q, h, f)) rest =
    let same : m ≡ n = ground arith in
    elim (dec_lt 0 n) [
      | yes p ↦ rw (dif_pos _ le_prop p) (
          Written-round path bytes offset d d1 (again n p d1).1 (again n p d1).0 n (omega arith)
            (rw same at f) (rest n p d1))
      | no p ↦ rw (dif_neg _ p) (
          Written-round path bytes offset d d1 d1 (err (io write_zero)) n (omega arith)
            (rw same at f)
            (Written-refl path (drop n bytes) (offset + n) d1 d1 (err (io write_zero)) refl
              (λ z. cc)))
    ]

write_loop-Written :
    (path : Text) (bytes : Bytes) (w : Acc Shorter bytes) (offset : ℕ) (d : Disk)
    → Written path bytes offset d
        (write_loop path bytes w offset d).0
        (write_loop path bytes w offset d).1
unfolding write_loop
write_loop-Written path bytes (Acc.intro _ smaller) offset d = elim (dec_lt 0 (length bytes)) [
  | yes p ↦ rw (dif_pos _ le_prop p) (
      write_round-Written path bytes offset d _ (write_at path bytes offset d)
        (write_at-WroteSome path bytes offset d)
        (λ n h d1.
          write_loop-Written path (drop n bytes) (smaller (drop n bytes) (drop-Shorter n bytes h p))
            (offset + n) d1))
  | no p ↦
      rw (dif_neg _ p)
        (Written-refl path bytes offset d d (ok tt) refl (λ _. nil_of_length bytes p))
]

-- Whatever the sizes of the writes, `write_all_at` leaves what `Written` says.
pub write_all_at-Written :
    (path : Text) (bytes : Bytes) (offset : ℕ) (d : Disk)
    → Written path bytes offset d
        (write_all_at path bytes offset d).0
        (write_all_at path bytes offset d).1
unfolding write_all_at
write_all_at-Written path bytes offset d =
    write_loop-Written path bytes (Acc-Shorter (suc (length bytes)) bytes (omega arith)) offset d
