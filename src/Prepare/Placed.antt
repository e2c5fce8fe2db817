-- ===== src/Prepare/Placed.antt =====
-- The cache file of each layer on the disk, when `prepare_cache_layers` has gone over it.
use lazyd.Base.{
  ℕ, ◌≤◌, ◌≡◌, refl, ap, sym, subst, ◌∙◌, inl, inr, arith, Text, text, text_eq, text_eq_sound,
  text_eq_of_ne, Bool, true, false, [], ◌∷◌, ◌++◌, if◌then◌else◌, Bool-cases,
}
use lazyd.Errors.{ok}
use lazyd.Exec.{Exec, when, bind-parts, ◌>>=◌, ◌>>◌}
use lazyd.Disk.{Disk, contents, file_at, sync, open_existing}
use lazyd.Disk.Laws.Files.{sync-files}
use lazyd.Disk.Laws.Leaves.{Leaves, bind-Leaves, open_existing-Leaves}
use lazyd.RangeMap.{OpenedRangeMap, bitmap_path}
use lazyd.RangeMap.Open.{HeaderCodec, open_or_create}
use lazyd.RangeMap.Open.Leaves.{open_or_create-Leaves}
use lazyd.RangeMap.Open.Opened.{open_or_create-Opened}
use lazyd.RangeMap.Presence.{Lseek}
use lazyd.RangeMap.Recovery.Leaves.{recovery_reconcile-OnlyMap}
use lazyd.Prepare.{
  PrepareLayerDescriptor, PrepareImageRequest, blob, join, recover, sparse_path_of,
  create_sparse_file, open_layer,
}
use lazyd.Prepare.Sparse.{Sized, create_sparse_file-Sized}

abbrev pub last_byte : Text → ℕ
last_byte [] = 0
last_byte (c ∷ []) = c
last_byte (c ∷ d ∷ s) = last_byte (d ∷ s)

last_byte-append : (s : Text) (c : ℕ) (t : Text) → last_byte (s ++ (c ∷ t)) ≡ last_byte (c ∷ t)
last_byte-append [] c t = refl
last_byte-append (a ∷ []) c t = refl
last_byte-append (a ∷ b ∷ s) c t = last_byte-append (b ∷ s) c t

last_byte-if :
    (b : Bool) (s t : Text) (c : ℕ)
    → last_byte s ≡ c
    → last_byte t ≡ c
    → last_byte (if b then s else t) ≡ c
last_byte-if true s t c h k = h
last_byte-if false s t c h k = k

last_byte-join : (root : Text) → last_byte (join root (text "layer.erofs")) ≡ b's'
unfolding join text
last_byte-join [] = refl
last_byte-join (r ∷ root) =
    last_byte-if _ ((r ∷ root) ++ text "layer.erofs") ((r ∷ root) ++ (b'/' ∷ text "layer.erofs"))
      b's' (last_byte-append (r ∷ root) _ _) (last_byte-append (r ∷ root) _ _)

last_byte-bitmap_path : (path : Text) → last_byte (bitmap_path path) ≡ b'p'
unfolding bitmap_path text
last_byte-bitmap_path path = last_byte-append path _ _

-- The file at `path` has `n` bytes or more.
abbrev pub Holds : Text → ℕ → Disk → Type 0
Holds path n d = n ≤ (file_at d path).len

module _ (json : HeaderCodec) (lseek : Lseek) (root : Text) (request : PrepareImageRequest)
    (layer : PrepareLayerDescriptor) (n : ℕ) where
  abbrev pub sparse : Text
  sparse = sparse_path_of json lseek root request layer

  abbrev bitmap : Text
  bitmap = bitmap_path sparse

  pub last_byte-sparse : last_byte sparse ≡ b's'
  unfolding sparse_path_of
  last_byte-sparse = last_byte-join _

  no_bitmap : (path : Text) → last_byte path ≡ b's' → text_eq bitmap path ≡ false
  no_bitmap path h =
      text_eq_of_ne bitmap path
        (λ e. let z = last_byte-bitmap_path sparse in omega (arith, z, h, ap last_byte e))

  abbrev recovered : OpenedRangeMap → Exec Disk Unit
  recovered o = when o.needs_recovery (recover json lseek root request sparse o)

  abbrev opened : Exec Disk Unit
  opened = open_or_create json sparse (blob layer) request.fetch.unit_bytes >>= recovered

  abbrev behind_create : Exec Disk Unit
  behind_create = open_existing sparse >>= λ _. opened

  recovered-Leaves : (o : OpenedRangeMap) → o.range_map.file ≡ bitmap → Leaves bitmap (recovered o)
  unfolding recover
  recovered-Leaves o file d q ne = elim (Bool-cases o.needs_recovery) [
    | inr h ↦ rw h refl
    | inl h ↦ rw h (
        (recovery_reconcile-OnlyMap lseek sparse (record { map = o.range_map; disk = d })).others q
          (ap (λ p. text_eq p q) file ∙ ne))
  ]

  behind_create-Leaves : Leaves bitmap behind_create
  behind_create-Leaves =
      bind-Leaves bitmap (open_existing sparse) (λ _. opened) (open_existing-Leaves bitmap sparse)
        (λ _ _ _.
          bind-Leaves bitmap (open_or_create json sparse (blob layer) request.fetch.unit_bytes)
            recovered (open_or_create-Leaves json sparse (blob layer) request.fetch.unit_bytes)
            (λ o d q.
              let out = open_or_create json sparse (blob layer) request.fetch.unit_bytes d in
              recovered-Leaves o
                (open_or_create-Opened json sparse (blob layer) request.fetch.unit_bytes d out.1 o
                  (ap (λ r. (r, out.1)) q)).file))

  module _ (d : Disk) (done : (open_layer json lseek root request layer n d).0 ≡ ok tt) where
    abbrev before : Disk
    before = (sync d).1

    abbrev between : Disk
    between = (create_sparse_file sparse n before).1

    abbrev behind : Disk
    behind = (open_layer json lseek root request layer n d).1

    parts :
        ((create_sparse_file sparse n before).0 ≡ ok tt)
        × ((q : Text) → text_eq bitmap q ≡ false → behind.files q ≡ between.files q)
    unfolding open_layer
    parts =
        let whole : open_layer json lseek root request layer n d ≡ (ok tt, behind) =
          ap (λ r. (r, behind)) done in
        let (_, _, h1) =
          bind-parts sync (λ _. create_sparse_file sparse n >> behind_create) d tt behind whole in
        let (_, created, h2) =
          bind-parts (create_sparse_file sparse n) (λ _. behind_create) before tt behind h1 in
        (created, λ q ne. ap (λ r. r.1.files q) (sym h2) ∙ behind_create-Leaves between q ne)

    sized : Sized sparse n before (create_sparse_file sparse n before).0 between
    sized = create_sparse_file-Sized sparse n before

    -- The layer's own file
    pub open_layer-own : Holds sparse n behind
    open_layer-own =
        let same = ap contents (parts.1 sparse (no_bitmap sparse last_byte-sparse)) in
        let whole = (sized.done parts.0).0 in omega (arith, ap (λ f. f.len) same, whole)

    -- A cache file that was there before
    pub open_layer-other :
        (path : Text) (m : ℕ) → last_byte path ≡ b's' → Holds path m d → Holds path m behind
    open_layer-other path m h held =
        let same = ap (λ f. f.len) (ap contents (parts.1 path (no_bitmap path h))) in
        let start = ap (λ f. (contents (f path)).len) (sync-files d) in
        elim (Bool-cases (text_eq sparse path)) [
          | inl e ↦
              let eq = text_eq_sound sparse path e in
              let (full, grown, _) = sized.done parts.0 in
              let after = subst (λ p. (file_at between p).len ≡ n) eq full in
              let room = subst (λ p. (file_at before p).len ≤ n) eq grown in
              omega (arith, same, start, after, room)
          | inr e ↦
              let kept = ap (λ f. (contents f).len) (sized.others path e) in
              omega (arith, same, start, kept)
        ]
