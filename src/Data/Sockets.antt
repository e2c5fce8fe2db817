-- ===== src/Data/Sockets.antt =====
-- The sockets of src/data.rs: `SeqpacketListener::bind` and `accept`, and the loop that accepts.
pub mod Bind
use lazyd.Base.{
  ℕ, Text, Bytes, Bool, true, false, ◌&&◌, ◌||◌, not, Option, none, some, List, [], ◌∷◌, take, ◌==◌,
  if◌then◌else◌,
}
use lazyd.Errors.{IoError, Error, io, Result, ok, err}
use lazyd.Exec.{Exec, pure, lift, gets, when, ◌>>=◌, ◌>>◌}
use lazyd.Disk.{Disk, exists, remove_file, make_socket, sync}
use lazyd.Data.Packets.{Count, count, failure, path_len, sockaddr_un}

-- What the system returns for a call that is not negative, or the last error.
abbrev pub checked : Count → Result ℕ
checked (count n) = ok n
checked (failure e) = err (io e)

abbrev at_segment_end : Text → Bool
at_segment_end [] = true
at_segment_end (c ∷ s) = c == b'/'

-- Only slashes, and single dots between them
unfoldable pub is_root : Text → Bool
is_root [] = true
is_root (c ∷ s) = let rest = is_root s in (c == b'/' || (c == b'.' && at_segment_end s)) && rest

-- Whether `Path::parent` gives a path: not for the root and not for no path.
unfoldable pub has_parent : Text → Bool
has_parent [] = false
has_parent (c ∷ s) = not (c == b'/' && is_root s)

-- A file that is in the way goes, and the directories above are made.
unfoldable pub make_way : Text → Exec Disk Unit
make_way path = do
  there ← gets (exists path)
  when there (remove_file path)
  when (has_parent path) sync

-- `libc::bind`, which makes the file that the address names. An address that starts with a zero
-- byte names no file.
unfoldable pub bind_address : Bytes → Exec Disk Unit
bind_address sun_path =
    if path_len sun_path == 0 then sync else make_socket (take (path_len sun_path) sun_path)

-- The descriptor, from the answer of `socket`
unfoldable pub create_seqpacket_socket : Count → Result ℕ
create_seqpacket_socket = checked

-- `SeqpacketListener::bind`, from the answers of `socket` and `listen`
unfoldable pub bind : Count → Count → Text → Exec Disk ℕ
bind socket listen path = do
  make_way path
  fd ← lift (create_seqpacket_socket socket)
  address ← lift (sockaddr_un path)
  bind_address address.0
  _ ← lift (checked listen)
  pure fd

-- `SeqpacketListener::accept`, from the answer of `accept4`
unfoldable pub accept : Count → Result ℕ
accept = checked

-- The loop of `serve_listener` over the answers of `accept4`: the streams that get a task, and the
-- error that ends it, if one came.
unfoldable pub serve_listener : List Count → List ℕ × Option Error
serve_listener [] = ([], none)
serve_listener (answer ∷ answers) =
    let (streams, end) = serve_listener answers in
    elim (accept answer) [ err e ↦ ([], some e) | ok fd ↦ (fd ∷ streams, end) ]
