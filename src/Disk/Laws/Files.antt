-- ===== src/Disk/Laws/Files.antt =====
-- What the files are behind a call, in particular one that succeeded.
use lazyd.Base.{
  ℕ, ◌+◌, ◌≤◌, ◌≡◌, refl, Text, Bytes, leb, tabulate, arith, inl, inr, Bool-cases, Option-cases,
  leb→le,
}
use lazyd.Errors.{ok}
use lazyd.Disk.{
  Disk, splice, put_file, failed, resize, file_at, is_some, set_len, sync, write_all_at,
  read_exact_at, open_create, open_existing,
}
use lazyd.Disk.Laws.{Outcome-cases}

pub set_len-files :
    (path : Text) (n : ℕ) (d : Disk) (u : Unit)
    → (set_len path n d).0 ≡ ok u
    → (set_len path n d).1.files ≡ put_file d.files path (resize (file_at d path) n)
unfolding set_len
set_len-files path n d u h = elim (Option-cases (failed (d.plan d.calls))) [
  | inl q ↦ ground arith
  | inr (e, q) ↦ ground arith
]

pub write_all_at-files :
    (path : Text) (bytes : Bytes) (offset : ℕ) (d : Disk) (u : Unit)
    → (write_all_at path bytes offset d).0 ≡ ok u
    → (write_all_at path bytes offset d).1.files
      ≡ put_file d.files path (splice (file_at d path) offset bytes)
unfolding write_all_at
write_all_at-files path bytes offset d u h = elim (Outcome-cases (d.plan d.calls)) [
  | inl (n, e, q) ↦ ground arith
  | inr (inl q) ↦ ground arith
  | inr (inr (n, q)) ↦ ground arith
]

pub open_create-files :
    (path : Text) (d : Disk) (u : Unit)
    → (open_create path d).0 ≡ ok u
    → (open_create path d).1.files ≡ put_file d.files path (file_at d path)
unfolding open_create
open_create-files path d u h = elim (Option-cases (failed (d.plan d.calls))) [
  | inl q ↦ ground arith
  | inr (e, q) ↦ ground arith
]

-- Calls that write nothing, whether they succeed or fail
pub sync-files : (d : Disk) → (sync d).1.files ≡ d.files
unfolding sync
sync-files d = elim (Option-cases (failed (d.plan d.calls))) [
  | inl q ↦ ground arith
  | inr (e, q) ↦ ground arith
]

pub open_existing-files : (path : Text) (d : Disk) → (open_existing path d).1.files ≡ d.files
unfolding open_existing
open_existing-files path d = elim (Bool-cases (is_some (d.files path))) [
  | inr h ↦ rw h refl
  | inl h ↦ elim (Option-cases (failed (d.plan d.calls))) [
    | inl q ↦ rw h (ground arith)
    | inr (e, q) ↦ rw h (ground arith)
  ]
]

pub read_exact_at-files :
    (path : Text) (n offset : ℕ) (d : Disk) → (read_exact_at path n offset d).1.files ≡ d.files
unfolding read_exact_at
read_exact_at-files path n offset d = elim (Bool-cases (leb (offset + n) (file_at d path).len)) [
  | inr h ↦ rw h refl
  | inl h ↦ elim (Option-cases (failed (d.plan d.calls))) [
    | inl q ↦ rw h (ground arith)
    | inr (e, q) ↦ rw h (ground arith)
  ]
]

-- The bytes that a read gives are within the file.
pub read_exact_at-bytes :
    (path : Text) (n offset : ℕ) (d : Disk) (bytes : Bytes)
    → (read_exact_at path n offset d).0 ≡ ok bytes
    → (offset + n ≤ (file_at d path).len) × (bytes ≡ tabulate n offset (file_at d path).byte)
unfolding read_exact_at
read_exact_at-bytes path n offset d bytes h =
    elim (Bool-cases (leb (offset + n) (file_at d path).len)) [
      | inr short ↦ let z = rw short at h in cc
      | inl long ↦ (
        leb→le (offset + n) (file_at d path).len long,
        elim (Option-cases (failed (d.plan d.calls))) [
          | inl q ↦ let z = rw long at h in ground arith
          | inr (e, q) ↦ let z = rw long at h in ground arith
        ],
      )
    ]
