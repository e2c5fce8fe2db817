-- ===== src/Disk/Laws.antt =====
-- The bytes of a file behind a write.
pub mod Files
pub mod Leaves
use lazyd.Base.{
  ℕ, ◌+◌, ◌-◌, ◌≡◌, refl, Text, Bytes, text_eq, text_eq_refl, false, ◌&&◌, Option, none, some, [],
  ◌∷◌, length, get_or, ltb, leb, if◌then◌else◌, arith, take, ◌⊎◌, inl, inr,
}
use lazyd.Errors.{IoError, io, ok, err}
use lazyd.Disk.{
  File, Disk, Outcome, success, short, failure, byte_of, splice, put_file, set_len, write_all_at,
  failed, resize, file_at, tick,
}

-- Past the end of the file too: a byte behind the end counts as zero.
pub byte_of-splice :
    (f : File) (offset : ℕ) (bytes : Bytes) (i : ℕ)
    → byte_of (splice f offset bytes) i ≡ (
        if leb offset i && ltb i (offset + length bytes)
        then get_or bytes (i - offset) 0
        else byte_of f i)
unfolding splice
byte_of-splice f offset [] i = ground arith
byte_of-splice f offset (b ∷ bytes) i = ground arith

pub put_file-same :
    (files : Text → Option File) (p : Text) (f : File) → put_file files p f p ≡ some f
put_file-same files p f = rw text_eq_refl

pub put_file-other :
    (files : Text → Option File) (p q : Text) (f : File)
    → text_eq p q ≡ false
    → put_file files p f q ≡ files q
put_file-other files p q f h = rw h

pub Outcome-cases :
    (o : Outcome)
    → ((n : ℕ) × (e : IoError) × (o ≡ failure n e)) ⊎ ((o ≡ success) ⊎ ((n : ℕ) × (o ≡ short n)))
Outcome-cases success = inr (inl refl)
Outcome-cases (short n) = inr (inr (n, refl))
Outcome-cases (failure n e) = inl (n, e, refl)

pub set_len-ok :
    (path : Text) (n : ℕ) (d : Disk)
    → failed (d.plan d.calls) ≡ none
    → set_len path n d ≡ (
      ok tt,
      record d { files = put_file d.files path (resize (file_at d path) n); calls = d.calls + 1 },
    )
unfolding set_len
set_len-ok path n d q = ground arith

pub set_len-err :
    (path : Text) (n : ℕ) (d : Disk) (e : IoError)
    → failed (d.plan d.calls) ≡ some e
    → set_len path n d ≡ (err (io e), tick d)
unfolding set_len
set_len-err path n d e q = ground arith

-- The byte itself, where there is something to write.
pub byte-splice :
    (f : File) (offset b : ℕ) (bytes : Bytes) (i : ℕ)
    → (splice f offset (b ∷ bytes)).byte i ≡ (
        if leb offset i && ltb i (offset + length (b ∷ bytes))
        then get_or (b ∷ bytes) (i - offset) 0
        else byte_of f i)
unfolding splice
byte-splice f offset b bytes i = refl

pub write_all_at-ok :
    (path : Text) (bytes : Bytes) (offset : ℕ) (d : Disk)
    → d.plan d.calls ≡ success
    → write_all_at path bytes offset d ≡ (
      ok tt,
      record d {
        files = put_file d.files path (splice (file_at d path) offset bytes);
        calls = d.calls + 1;
      },
    )
unfolding write_all_at
write_all_at-ok path bytes offset d q = ground arith

pub write_all_at-err :
    (path : Text) (bytes : Bytes) (offset : ℕ) (d : Disk) (n : ℕ) (e : IoError)
    → d.plan d.calls ≡ failure n e
    → write_all_at path bytes offset d ≡ (
      err (io e),
      record d {
        files = put_file d.files path (splice (file_at d path) offset (take n bytes));
        calls = d.calls + 1;
      },
    )
unfolding write_all_at
write_all_at-err path bytes offset d n e q = ground arith
