-- ===== src/Disk.antt =====
-- The calls of `std::fs` that the crate makes, over files as byte sequences under their paths. An
-- open handle is the path that it was opened at. Which calls fail, with what error, and how much a
-- failed or a short write has written, is a plan that the theorems quantify over.
pub mod Laws
use lazyd.Base.{
  ℕ, ◌+◌, ◌-◌, Text, Bytes, text, text_eq, Bool, true, false, ◌&&◌, ◌||◌, Option, none, some, List,
  [], ◌∷◌, length, get_or, take, tabulate, ltb, leb, ◌==◌, if◌then◌else◌, min,
}
use lazyd.Errors.{IoError, Error, io, Result, ok, err}
use lazyd.Exec.{Exec, pure, fail}

-- The bytes from `len` on are no part of the file.
pub record File : Type 0 where
  pub len : ℕ
  pub byte : ℕ → ℕ

-- What the system does with a call: a failure with the bytes that it had written, or, for one
-- `write_at`, how many bytes it takes.
pub data Outcome : Type 0 where
  success : Outcome
  short : ℕ → Outcome
  failure : ℕ → IoError → Outcome

pub record Disk : Type 0 where
  pub files : Text → Option File
  pub plan : ℕ → Outcome
  pub calls : ℕ

abbrev pub empty_file : File
empty_file = record { len = 0; byte = λ _. 0 }

-- Past the end a file reads as zeros once it is extended.
abbrev pub byte_of : File → ℕ → ℕ
byte_of f i = if ltb i f.len then f.byte i else 0

abbrev pub resize : File → ℕ → File
resize f n = record { len = n; byte = byte_of f }

-- `bytes` written at `offset`; a gap behind the old end is filled with zeros, and nothing happens
-- if there is nothing to write.
overwrite : File → ℕ → Bytes → File
overwrite f offset bytes = record {
  len = if ltb f.len (offset + length bytes) then offset + length bytes else f.len;
  byte = λ i.
      if leb offset i && ltb i (offset + length bytes)
      then get_or bytes (i - offset) 0
      else byte_of f i;
}

unfoldable pub splice : File → ℕ → Bytes → File
unfolding overwrite
splice f offset [] = f
splice f offset (b ∷ bytes) = overwrite f offset (b ∷ bytes)

abbrev pub put_file : (Text → Option File) → Text → File → Text → Option File
put_file files path f p = if text_eq path p then some f else files p

abbrev pub drop_file : (Text → Option File) → Text → Text → Option File
drop_file files path p = if text_eq path p then none else files p

abbrev pub contents : Option File → File
contents none = empty_file
contents (some f) = f

abbrev pub file_at : Disk → Text → File
file_at d path = contents (d.files path)

abbrev pub is_some {ℓ} : {A : Type ℓ} → Option A → Bool
is_some none = false
is_some (some _) = true

abbrev pub tick : Disk → Disk
tick d = record d { calls = d.calls + 1 }

abbrev pub failed : Outcome → Option IoError
failed success = none
failed (short _) = none
failed (failure _ e) = some e

-- A call that leaves the files `files` behind, or fails without an effect.
abbrev attempt : {A : Type 0} → A → (Text → Option File) → Exec Disk A
attempt a files d = elim (failed (d.plan d.calls)) [
  | none ↦ (ok a, record d { files = files; calls = d.calls + 1 })
  | some e ↦ (err (io e), tick d)
]

-- `Path::exists`
unfoldable pub exists : Text → Disk → Bool
exists path d = is_some (d.files path)

abbrev pub no_such_file : IoError
no_such_file = record { raw_os_error = some 2; display = text "No such file or directory" }

abbrev pub unexpected_eof : IoError
unexpected_eof = record { raw_os_error = none; display = text "failed to fill whole buffer" }

-- `OpenOptions::new().create(true).read(true).write(true).open(path)`
unfoldable pub open_create : Text → Exec Disk Unit
open_create path d = attempt tt (put_file d.files path (file_at d path)) d

-- `OpenOptions::new().read(true).write(true).open(path)`
unfoldable pub open_existing : Text → Exec Disk Unit
open_existing path d =
    if is_some (d.files path) then attempt tt d.files d else (err (io no_such_file), tick d)

-- `std::fs::remove_file`
unfoldable pub remove_file : Text → Exec Disk Unit
remove_file path d =
    if is_some (d.files path)
    then attempt tt (drop_file d.files path) d
    else (err (io no_such_file), tick d)

abbrev pub address_in_use : IoError
address_in_use = record { raw_os_error = some 98; display = text "Address already in use" }

-- The file of a socket, as `bind` makes it
unfoldable pub make_socket : Text → Exec Disk Unit
make_socket path d =
    if is_some (d.files path)
    then (err (io address_in_use), tick d)
    else attempt tt (put_file d.files path empty_file) d

-- `File::set_len`
unfoldable pub set_len : Text → ℕ → Exec Disk Unit
set_len path n d = attempt tt (put_file d.files path (resize (file_at d path) n)) d

-- `File::sync_data`, `File::seek` from the start, `create_dir_all` and `try_clone`: no effect here.
unfoldable pub sync : Exec Disk Unit
sync d = attempt tt d.files d

-- `FileExt::write_all_at`; a failure leaves a beginning of the bytes in the file.
unfoldable pub write_all_at : Text → Bytes → ℕ → Exec Disk Unit
write_all_at path bytes offset d = elim (d.plan d.calls) [
  | failure n e ↦ (
    err (io e),
    record d {
      files = put_file d.files path (splice (file_at d path) offset (take n bytes));
      calls = d.calls + 1;
    },
  )
  | _ ↦ (
    ok tt,
    record d {
      files = put_file d.files path (splice (file_at d path) offset bytes);
      calls = d.calls + 1;
    },
  )
]

-- How many of `n` bytes one write takes.
abbrev pub accepted : Outcome → ℕ → ℕ
accepted (short k) n = min k n
accepted _ n = n

-- `FileExt::write_at`
unfoldable pub write_at : Text → Bytes → ℕ → Exec Disk ℕ
write_at path bytes offset d =
    let n = accepted (d.plan d.calls) (length bytes) in
    attempt n (put_file d.files path (splice (file_at d path) offset (take n bytes))) d

abbrev read_bytes : File → ℕ → ℕ → Bytes
read_bytes f n offset = tabulate n offset f.byte

-- `FileExt::read_exact_at`
unfoldable pub read_exact_at : Text → ℕ → ℕ → Exec Disk Bytes
read_exact_at path n offset d =
    if leb (offset + n) (file_at d path).len
    then attempt (read_bytes (file_at d path) n offset) d.files d
    else (err (io unexpected_eof), tick d)

-- `File::metadata` and its length
unfoldable pub metadata_len : Text → Exec Disk ℕ
metadata_len path d = attempt (file_at d path).len d.files d
