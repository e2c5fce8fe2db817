-- ===== src/Data/Sockets/Bind.antt =====
-- What `SeqpacketListener::bind` leaves on the disk.
use lazyd.Base.{
  ℕ, suc, ◌+◌, ◌-◌, ◌<◌, ◌≡◌, refl, ap, sym, subst, ◌∙◌, inl, inr, arith, Text, Bytes, text_eq,
  text_eq_refl, Bool, true, false, none, some, [], ◌∷◌, ◌++◌, length, any, take, replicate, ◌==◌,
  Bool-cases, Option-cases,
}
use lazyd.Errors.{ok}
use lazyd.Exec.{Exec, lift, pure, when, gets, ◌>>=◌, ◌>>◌, bind-parts}
use lazyd.Disk.{
  Disk, empty_file, exists, remove_file, make_socket, sync, failed, is_some, drop_file, tick,
}
use lazyd.Disk.Laws.{put_file-same}
use lazyd.Disk.Laws.Leaves.{
  Leaves, bind-Leaves, lift-Leaves, when-Leaves, sync-Leaves, remove_file-Leaves,
  make_socket-Leaves,
}
use lazyd.Data.Packets.{Count, count, sockaddr_un, sockaddr_un_lem, path_len-zeros}
use lazyd.Data.Sockets.{checked, has_parent, make_way, bind_address, create_seqpacket_socket, bind}

abbrev then_above : Text → Bool → Exec Disk Unit
then_above path there = when there (remove_file path) >> when (has_parent path) sync

make_way-Leaves : (path : Text) → Leaves path (make_way path)
unfolding make_way
make_way-Leaves path =
    bind-Leaves path (gets (exists path)) (then_above path) (λ d q ne. refl)
      (λ there d e.
        bind-Leaves path (when there (remove_file path)) (λ _. when (has_parent path) sync)
          (when-Leaves path there (remove_file path) (remove_file-Leaves path))
          (λ _ _ _. when-Leaves path (has_parent path) sync (sync-Leaves path)))

take-all : (path : Text) (rest : Bytes) → take (length path) (path ++ rest) ≡ path
take-all [] rest = refl
take-all (b ∷ path) rest = ap (λ s. b ∷ s) (take-all path rest)

-- The address of a path that fits names the path.
module _ (path : Text) (plain : any (λ byte. byte == 0) path ≡ false)
    (named : 0 < length path) where
  address-names :
      (address : Bytes × ℕ)
      → sockaddr_un path ≡ ok address
      → (length path < 108) × (bind_address address.0 ≡ make_socket path)
  unfolding bind_address
  address-names address q = elim (sockaddr_un_lem path plain) [
    | inr (_, refused) ↦ absurd cc
    | inl (fits, given) ↦
        let e : 108 - length path ≡ suc (107 - length path) = ground arith in
        let same : address ≡ (path ++ replicate (suc (107 - length path)) 0, 2 + length path + 1) =
          subst (λ n. address ≡ (path ++ replicate n 0, 2 + length path + 1)) e cc in
        let zeros = path_len-zeros path (107 - length path) plain in
        let far : (length path == 0) ≡ false = ground arith in
        (fits, rw (same, zeros, far, take-all path (replicate (suc (107 - length path)) 0)) refl)
  ]

  abbrev listening : Count → ℕ → Exec Disk ℕ
  listening listen fd = lift (checked listen) >>= λ _. pure fd

  abbrev addressed : Count → ℕ → Bytes × ℕ → Exec Disk ℕ
  addressed listen fd address = bind_address address.0 >>= λ _. listening listen fd

  abbrev behind_way : Count → Count → Exec Disk ℕ
  behind_way socket listen = lift (create_seqpacket_socket socket) >>= λ fd.
      lift (sockaddr_un path) >>= addressed listen fd

  bind-Leaves_path : (socket listen : Count) → Leaves path (bind socket listen path)
  unfolding bind
  bind-Leaves_path socket listen =
      bind-Leaves path (make_way path) (λ _. behind_way socket listen) (make_way-Leaves path)
        (λ _ _ _.
          bind-Leaves path (lift (create_seqpacket_socket socket))
            (λ fd. lift (sockaddr_un path) >>= addressed listen fd)
            (lift-Leaves path (create_seqpacket_socket socket))
            (λ fd _ _.
              bind-Leaves path (lift (sockaddr_un path)) (addressed listen fd)
                (lift-Leaves path (sockaddr_un path))
                (λ address _ q.
                  bind-Leaves path (bind_address address.0) (λ _. listening listen fd)
                    (subst (Leaves path) (sym (address-names address q).1)
                      (make_socket-Leaves path))
                    (λ _ _ _.
                      bind-Leaves path (lift (checked listen)) (λ _. pure fd)
                        (lift-Leaves path (checked listen)) (λ _ _ _. lift-Leaves path (ok fd))))))

  made :
      (d : Disk)
      → (make_socket path d).0 ≡ ok tt
      → (make_socket path d).1.files path ≡ some empty_file
  unfolding make_socket
  made d h = elim (Bool-cases (is_some (d.files path))) [
    | inl q ↦ absurd (ground arith)
    | inr q ↦ elim (Option-cases (failed (d.plan d.calls))) [
      | inr (f, p) ↦ absurd (ground arith)
      | inl p ↦ ground (arith, put_file-same d.files path empty_file)
    ]
  ]

  bind-made :
      (socket listen : Count) (d e : Disk) (fd : ℕ)
      → bind socket listen path d ≡ (ok fd, e)
      → (length path < 108) × (e.files path ≡ some empty_file)
  unfolding bind
  bind-made socket listen d e fd h =
      let (_, _, h1) = bind-parts (make_way path) (λ _. behind_way socket listen) d fd e h in
      let (fd', opened, h2) =
        bind-parts (lift (create_seqpacket_socket socket))
          (λ n. lift (sockaddr_un path) >>= addressed listen n) (make_way path d).1 fd e h1 in
      let (address, q, h3) =
        bind-parts (lift (sockaddr_un path)) (addressed listen fd') (make_way path d).1 fd e h2 in
      let (_, bound, h4) =
        bind-parts (bind_address address.0) (λ _. listening listen fd') (make_way path d).1 fd e
          h3 in
      let (_, heard, h5) =
        bind-parts (lift (checked listen)) (λ _. pure fd')
          (bind_address address.0 (make_way path d).1).1 fd e h4 in
      let (fits, names) = address-names address q in
      (
        fits,
        ap (λ r. r.1.files path) (sym h5)
            ∙ ap (λ m. (m (make_way path d).1).1.files path) names
            ∙ made (make_way path d).1 (ap (λ m. (m (make_way path d).1).0) (sym names) ∙ bound),
      )

  abbrev Works : Disk → Type 0
  Works d = (k : ℕ) → failed (d.plan k) ≡ none

  synced :
      (b : Bool) (d : Disk)
      → Works d
      → (e : Disk) × (when b sync d ≡ (ok tt, e)) × (e.files ≡ d.files) × (e.plan ≡ d.plan)
  unfolding sync
  synced false d works = (d, refl, refl, refl)
  synced true d works = (tick d, ground (arith, works d.calls), refl, refl)

  removed :
      (d : Disk)
      → Works d
      → (e : Disk) × (when (exists path d) (remove_file path) d ≡ (ok tt, e))
        × (e.files path ≡ none)
        × (e.plan ≡ d.plan)
  unfolding exists remove_file
  removed d works = elim (Option-cases (d.files path)) [
    | inl q ↦ (d, rw q refl, q, refl)
    | inr (f, q) ↦ (
      record d { files = drop_file d.files path; calls = d.calls + 1 },
      ground (arith, works d.calls),
      rw text_eq_refl refl,
      refl,
    )
  ]

  done :
      (d : Disk)
      → Works d
      → (e : Disk) × (make_way path d ≡ (ok tt, e)) × (e.files path ≡ none) × (e.plan ≡ d.plan)
  unfolding make_way
  done d works =
      let (m, q, gone, plan) = removed d works in
      let works' : Works m = λ k. subst (λ p. failed (p k) ≡ none) (sym plan) (works k) in
      let (e, p, files, same) = synced (has_parent path) m works' in
      (e, rw (make_way, q, p) refl, ap (λ f. f path) files ∙ gone, same ∙ plan)

  makes : (d : Disk) → d.files path ≡ none → Works d → (make_socket path d).0 ≡ ok tt
  unfolding make_socket
  makes d gone works = ground (arith, works d.calls)

  bind-done :
      (fd n : ℕ) (d : Disk)
      → Works d
      → length path < 108
      → (bind (count fd) (count n) path d).0 ≡ ok fd
  unfolding bind create_seqpacket_socket
  bind-done fd n d works fits = elim (sockaddr_un_lem path plain) [
    | inr (long, _) ↦ absurd (ground arith)
    | inl (_, given) ↦
        let (e, way, gone, plan) = done d works in
        let works' : Works e = λ k. subst (λ p. failed (p k) ≡ none) (sym plan) (works k) in
        let names = (address-names _ given).1 in
        let bound = ap (λ m. (m e).0) names ∙ makes e gone works' in rw (way, given, bound) refl
  ]

-- For a path that is not empty and has no zero byte, whatever is on the disk: bind changes no
-- other file, whether it succeeds or fails; if it succeeds the path is shorter than 108 bytes and
-- has the empty file of the socket; and if the path is shorter than 108 bytes, neither socket nor
-- listen is refused and no call on the disk fails, bind gives the descriptor of the socket.
pub bind_lem :
    (socket listen : Count) (path : Text) (d : Disk)
    → any (λ byte. byte == 0) path ≡ false
    → 0 < length path
    → ((other : Text)
        → text_eq path other ≡ false
        → (bind socket listen path d).1.files other ≡ d.files other)
      × ((fd : ℕ)
          → (bind socket listen path d).0 ≡ ok fd
          → (length path < 108) × ((bind socket listen path d).1.files path ≡ some empty_file))
      × ((fd n : ℕ)
          → socket ≡ count fd
          → listen ≡ count n
          → ((k : ℕ) → failed (d.plan k) ≡ none)
          → length path < 108
          → (bind socket listen path d).0 ≡ ok fd)
bind_lem socket listen path d plain named = (
  bind-Leaves_path path plain named socket listen d,
  λ fd h.
      bind-made path plain named socket listen d (bind socket listen path d).1 fd
        (ap (λ r. (r, (bind socket listen path d).1)) h),
  λ fd n s l works fits.
      subst (λ c. (bind c listen path d).0 ≡ ok fd) (sym s)
        (subst (λ c. (bind (count fd) c path d).0 ≡ ok fd) (sym l)
          (bind-done path plain named fd n d works fits)),
)
