-- ===== src/Fanotify/Marks.antt =====
-- The marks of src/fanotify.rs: which instance serves which file.
use lazyd.Base.{
  ℕ, Text, text, Bool, true, false, ◌&&◌, Option, none, some, [], any, ◌==◌, Map, lookup, insert,
  remove,
}
use lazyd.Errors.{Error, bad_request, fanotify, Result, ok, err, reject_if, ◌>>=◌, ◌>>◌}
use lazyd.Disk.{Disk}

pub record FileKey : Type 0 where
  pub dev : ℕ
  pub ino : ℕ

-- The derived `==`
unfoldable pub key_eq : FileKey → FileKey → Bool
key_eq a b = a.dev == b.dev && a.ino == b.ino

-- The calls of the system on a path or a descriptor: `fanotify_mark`, with the message of its
-- error; `std::fs::metadata`; `fstat`, which gives nothing where it fails.
pub record Kernel : Type 0 where
  pub fanotify_mark : Disk → (add : Bool) → Text → Option Text
  pub metadata : Disk → Text → Result FileKey
  pub fstat : ℕ → Option FileKey

abbrev pub Marks : Type 0
Marks = Map FileKey Text

abbrev pub has_nul : Text → Bool
has_nul path = any (λ c. c == 0) path

abbrev nul_error : Error
nul_error = bad_request (text "target_path contains nul byte")

abbrev syscall : Option Text → Result (Unit {0})
syscall none = ok tt
syscall (some msg) = err (fanotify msg)

-- `FanotifyBackend::new`, from the error of `fanotify_init`, if it has one
unfoldable pub new : Option Text → Result Marks
new none = ok []
new (some msg) = err (fanotify msg)

module _ (kernel : Kernel) where
  unfoldable pub mark : Disk → Text → Text → Marks → Result Marks
  mark d instance_id path marks = do
    reject_if (has_nul path) nul_error
    syscall (kernel.fanotify_mark d true path)
    key ← kernel.metadata d path
    ok (insert key_eq key instance_id marks)

  unfoldable pub unmark : Disk → Text → Marks → Result Marks
  unmark d path marks = do
    key ← kernel.metadata d path
    reject_if (has_nul path) nul_error
    syscall (kernel.fanotify_mark d false path)
    ok (remove key_eq key marks)

  unfoldable pub instance_id_for_fd : ℕ → Marks → Option Text
  instance_id_for_fd fd marks = elim (kernel.fstat fd) [
    | none ↦ none
    | some key ↦ lookup key_eq key marks
  ]
