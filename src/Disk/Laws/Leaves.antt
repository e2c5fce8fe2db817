-- ===== src/Disk/Laws/Leaves.antt =====
-- Actions that change at most one file, whether they succeed or fail.
use lazyd.Base.{
  ℕ, take, length, ◌≡◌, refl, ap, ◌∙◌, inl, inr, Text, Bytes, text_eq, Bool, true, false,
  Option-cases, arith,
}
use lazyd.Errors.{Result, ok, err}
use lazyd.Exec.{Exec, continue, lift, caught, when, ◌>>=◌}
use lazyd.Disk.{
  Disk, attempt, File, put_file, file_at, resize, failed, open_create, open_existing, write_at,
  accepted, splice, set_len, write_all_at, sync, read_exact_at, remove_file, make_socket,
}
use lazyd.Disk.Laws.{put_file-other, Outcome-cases}
use lazyd.Disk.Laws.Files.{sync-files, read_exact_at-files, open_existing-files}

-- An action that changes no file but `path`, also when it fails.
abbrev pub Leaves : {A : Type 0} → Text → Exec Disk A → Type 0
Leaves path action =
    (d : Disk) (q : Text) → text_eq path q ≡ false → (action d).1.files q ≡ d.files q

pub continue-Leaves :
    {A B : Type 0} (path : Text) (r : Result A) (f : A → Exec Disk B)
    → ((a : A) → r ≡ ok a → Leaves path (f a))
    → Leaves path (continue r f)
continue-Leaves path (ok a) f h = h a refl
continue-Leaves path (err e) f h = λ d q ne. refl

pub bind-Leaves :
    {A B : Type 0} (path : Text) (m : Exec Disk A) (f : A → Exec Disk B)
    → Leaves path m
    → ((a : A) (d : Disk) → (m d).0 ≡ ok a → Leaves path (f a))
    → Leaves path (m >>= f)
bind-Leaves path m f h k d q ne =
    continue-Leaves path (m d).0 f (λ a e. k a d e) (m d).1 q ne ∙ h d q ne

pub lift-Leaves : {A : Type 0} (path : Text) (r : Result A) → Leaves path (lift r)
lift-Leaves path r d q ne = refl

attempt-Leaves :
    {A : Type 0} (path : Text) (a : Disk → A) (f : Disk → File)
    → Leaves path (λ d. attempt (a d) (put_file d.files path (f d)) d)
attempt-Leaves path a f d q ne = elim (Option-cases (failed (d.plan d.calls))) [
  | inl h ↦ ground (arith, put_file-other d.files path q (f d) ne)
  | inr (e, h) ↦ ground arith
]

pub open_create-Leaves : (path : Text) → Leaves path (open_create path)
unfolding open_create
open_create-Leaves path = attempt-Leaves path (λ _. tt) (λ d. file_at d path)

pub set_len-Leaves : (path : Text) (n : ℕ) → Leaves path (set_len path n)
unfolding set_len
set_len-Leaves path n = attempt-Leaves path (λ _. tt) (λ d. resize (file_at d path) n)

pub write_all_at-Leaves :
    (path : Text) (bytes : Bytes) (offset : ℕ) → Leaves path (write_all_at path bytes offset)
unfolding write_all_at
write_all_at-Leaves path bytes offset d q ne = elim (Outcome-cases (d.plan d.calls)) [
  | inl (n, e, h) ↦ ground arith
  | inr (inl h) ↦ ground arith
  | inr (inr (n, h)) ↦ ground arith
]

pub sync-Leaves : (path : Text) → Leaves path sync
sync-Leaves path d q ne = ap (λ g. g q) (sync-files d)

pub read_exact_at-Leaves : (path : Text) (n offset : ℕ) → Leaves path (read_exact_at path n offset)
read_exact_at-Leaves path n offset d q ne = ap (λ g. g q) (read_exact_at-files path n offset d)

pub caught-Leaves :
    {A : Type 0} (path : Text) (m : Exec Disk A) → Leaves path m → Leaves path (caught m)
caught-Leaves path m h = h

pub when-Leaves :
    (path : Text) (b : Bool) (m : Exec Disk Unit) → Leaves path m → Leaves path (when b m)
when-Leaves path true m h = h
when-Leaves path false m h = λ d q ne. refl

pub open_existing-Leaves : (path other : Text) → Leaves path (open_existing other)
open_existing-Leaves path other d q ne = ap (λ g. g q) (open_existing-files other d)

pub write_at-Leaves :
    (path : Text) (bytes : Bytes) (offset : ℕ) → Leaves path (write_at path bytes offset)
unfolding write_at
write_at-Leaves path bytes offset =
    attempt-Leaves path (λ d. accepted (d.plan d.calls) (length bytes))
      (λ d. splice (file_at d path) offset (take (accepted (d.plan d.calls) (length bytes)) bytes))

pub remove_file-Leaves : (path : Text) → Leaves path (remove_file path)
unfolding remove_file
remove_file-Leaves path d q ne = ground arith

pub make_socket-Leaves : (path : Text) → Leaves path (make_socket path)
unfolding make_socket
make_socket-Leaves path d q ne = ground arith
