-- ===== src/Prepare/Layers.antt =====
-- What `prepare_cache_layers` returns for the layers of an image.
use lazyd.Base.{
  ℕ, ◌≤◌, ap, sym, subst, ◌==◌, ==→eq, text, ◌<◌, ◌≡◌, refl, ◌⊎◌, inl, inr, arith, Text, text_eq,
  text_eq_sound, List, [], ◌∷◌, Bool-cases,
}
use lazyd.Errors.{Error, Result, ok, err}
use lazyd.Exec.{Result-cases}
use lazyd.Disk.{Disk}
use lazyd.RangeMap.{bitmap_path, validate_fetch_unit_bytes}
use lazyd.RangeMap.Open.{HeaderCodec}
use lazyd.RangeMap.Presence.{Lseek}
use lazyd.Prepare.{
  PrepareLayerDescriptor, PrepareImageRequest, PreparedLayer, erofs_layer_media_type, align_up,
  cache_key, instance_id, check_layer, open_layer, prepared_layer, prepare_layer, prepare_layers,
  prepare_cache_layers, join, sparse_path_of,
}
use lazyd.Prepare.Align.{align_up_lem}
use lazyd.Prepare.Placed.{
  Holds, last_byte, sparse, last_byte-sparse, open_layer-own, open_layer-other,
}

check_layer-ok :
    (layer : PrepareLayerDescriptor)
    → check_layer layer ≡ ok tt
    → (layer.media_type ≡ erofs_layer_media_type) × (0 < layer.size)
unfolding check_layer
check_layer-ok layer h = elim (Bool-cases (text_eq layer.media_type erofs_layer_media_type)) [
  | inr q ↦ absurd (ground arith)
  | inl q ↦ (text_eq_sound layer.media_type erofs_layer_media_type q, ground arith)
]

-- What is known of a layer that was prepared, and of its cache file on the disk `e`: the file has
-- the size of the device, which the blob fits in.
pub record Prepared (cache_root : Text) (alignment : ℕ) (e : Disk) (layer : PrepareLayerDescriptor)
    (p : PreparedLayer) : Type 0 where
  pub erofs : layer.media_type ≡ erofs_layer_media_type
  pub nonempty : 0 < layer.size
  pub pmem : align_up layer.size alignment ≡ ok p.pmem_size
  pub room : layer.size ≤ p.pmem_size
  pub described :
      (p.index ≡ layer.index)
      × (p.blob_digest ≡ layer.digest)
      × (p.blob_size ≡ layer.size)
      × (p.media_type ≡ layer.media_type)
  pub named : p.instance_id ≡ instance_id (cache_key layer.digest)
  pub sparse : p.sparse_path ≡ join (join cache_root (cache_key layer.digest)) (text "layer.erofs")
  pub bitmap : p.bitmap_path ≡ bitmap_path p.sparse_path
  pub cached : Holds p.sparse_path p.pmem_size e

-- On a later disk too, if the file is there still
still :
    {root : Text} {alignment : ℕ} {d e : Disk} {layer : PrepareLayerDescriptor} {p : PreparedLayer}
    → Prepared root alignment d layer p
    → Holds p.sparse_path p.pmem_size e
    → Prepared root alignment e layer p
still known held = record {
  erofs = known.erofs;
  nonempty = known.nonempty;
  pmem = known.pmem;
  room = known.room;
  described = known.described;
  named = known.named;
  sparse = known.sparse;
  bitmap = known.bitmap;
  cached = held;
}

align_up-room : (value alignment n : ℕ) → align_up value alignment ≡ ok n → value ≤ n
align_up-room v a n h = elim (Bool-cases (a == 0)) [
  | inl z ↦
      absurd (
        let e : align_up v a ≡ align_up v 0 = ap (align_up v) (==→eq a 0 z) in
        unfold align_up in cc)
  | inr z ↦ elim (align_up_lem v a (ground arith)) [
    | inl (r, q, _, le, _) ↦ let same : r ≡ n = cc in subst (λ x. v ≤ x) same le
    | inr (q, _) ↦ absurd cc
  ]
]

abbrev pub AllPrepared : Text → ℕ → Disk → List PrepareLayerDescriptor → List PreparedLayer → Type 0
AllPrepared root alignment e [] [] = Unit {0}
AllPrepared root alignment e (l ∷ ls) (p ∷ ps) =
    Prepared root alignment e l p × AllPrepared root alignment e ls ps
AllPrepared root alignment e _ _ = ⊥

module _ (json : HeaderCodec) (lseek : Lseek) (root : Text) (request : PrepareImageRequest) where
  module _ (layer : PrepareLayerDescriptor) (d : Disk) where
    refused :
        (e : Error)
        → check_layer layer ≡ err e
        → (prepare_layer json lseek root request layer d).0 ≡ err e
    unfolding prepare_layer
    refused e q = rw q

    too_large :
        (e : Error)
        → check_layer layer ≡ ok tt
        → align_up layer.size request.pmem.alignment_bytes ≡ err e
        → (prepare_layer json lseek root request layer d).0 ≡ err e
    unfolding prepare_layer
    too_large e q a = rw (q, a)

    not_opened :
        (e : Error) (n : ℕ)
        → check_layer layer ≡ ok tt
        → align_up layer.size request.pmem.alignment_bytes ≡ ok n
        → (open_layer json lseek root request layer n d).0 ≡ err e
        → (prepare_layer json lseek root request layer d).0 ≡ err e
    unfolding prepare_layer
    not_opened e n q a o = rw (q, a, o)

    opens :
        (n : ℕ)
        → check_layer layer ≡ ok tt
        → align_up layer.size request.pmem.alignment_bytes ≡ ok n
        → (open_layer json lseek root request layer n d).0 ≡ ok tt
        → (prepare_layer json lseek root request layer d).0
          ≡ ok (prepared_layer json lseek root request layer n)
    unfolding prepare_layer
    opens n q a o = rw (q, a, o)

    -- Then the disk is the one behind `open_layer`.
    disk_behind :
        (n : ℕ)
        → check_layer layer ≡ ok tt
        → align_up layer.size request.pmem.alignment_bytes ≡ ok n
        → (open_layer json lseek root request layer n d).0 ≡ ok tt
        → (prepare_layer json lseek root request layer d).1
          ≡ (open_layer json lseek root request layer n d).1
    unfolding prepare_layer
    disk_behind n q a o = rw (q, a, o) refl

    Prepared-made :
        (n : ℕ) (e : Disk)
        → check_layer layer ≡ ok tt
        → align_up layer.size request.pmem.alignment_bytes ≡ ok n
        → Holds (sparse json lseek root request layer n) n e
        → Prepared root request.pmem.alignment_bytes e layer
            (prepared_layer json lseek root request layer n)
    unfolding prepared_layer sparse_path_of
    Prepared-made n e q a held =
        let c = check_layer-ok layer q in
        record {
          erofs = c.0;
          nonempty = c.1;
          pmem = a;
          room = align_up-room layer.size request.pmem.alignment_bytes n a;
          described = (refl, refl, refl, refl);
          named = refl;
          sparse = refl;
          bitmap = refl;
          cached = held;
        }

    abbrev behind : Disk
    behind = (prepare_layer json lseek root request layer d).1

    -- One layer is refused, with no layer returned; or prepared, and no cache file is shorter than
    -- a length that it had.
    prepare_layer-cases :
        ((e : Error) × ((prepare_layer json lseek root request layer d).0 ≡ err e))
        ⊎ ((p : PreparedLayer) × ((prepare_layer json lseek root request layer d).0 ≡ ok p)
            × ((path : Text) (m : ℕ) → last_byte path ≡ b's' → Holds path m d → Holds path m behind)
            × (last_byte p.sparse_path ≡ b's')
            × Prepared root request.pmem.alignment_bytes behind layer p)
    prepare_layer-cases = elim (Result-cases (check_layer layer)) [
      | inr (e, q) ↦ inl (e, refused e q)
      | inl (tt, q) ↦ elim (Result-cases (align_up layer.size request.pmem.alignment_bytes)) [
        | inr (e, a) ↦ inl (e, too_large e q a)
        | inl (n, a) ↦ elim (Result-cases (open_layer json lseek root request layer n d).0) [
          | inr (e, o) ↦ inl (e, not_opened e n q a o)
          | inl (tt, o) ↦
              let same = sym (disk_behind n q a o) in
              inr (
                prepared_layer json lseek root request layer n,
                opens n q a o,
                λ path m h held.
                    subst (Holds path m) same
                      (open_layer-other json lseek root request layer n d o path m h held),
                unfold prepared_layer in last_byte-sparse json lseek root request layer n,
                Prepared-made n behind q a (
                    subst (Holds (sparse json lseek root request layer n) n) same
                      (open_layer-own json lseek root request layer n d o)),
              )
        ]
      ]
    ]

  -- The layers, from the disk `d`, end in an error or on a disk that they are prepared on.
  abbrev Ends : List PrepareLayerDescriptor → Disk → Type 0
  Ends layers d =
      ((e : Error) × ((prepare_layers json lseek root request layers d).0 ≡ err e))
      ⊎ ((ps : List PreparedLayer) × (e : Disk) × (prepare_layers json lseek root request layers d
            ≡ (ok ps, e))
          × ((path : Text) (m : ℕ) → last_byte path ≡ b's' → Holds path m d → Holds path m e)
          × AllPrepared root request.pmem.alignment_bytes e layers ps)

  module _ (layer : PrepareLayerDescriptor) (layers : List PrepareLayerDescriptor) (d : Disk) where
    first_fails :
        (e : Error)
        → (prepare_layer json lseek root request layer d).0 ≡ err e
        → (prepare_layers json lseek root request (layer ∷ layers) d).0 ≡ err e
    unfolding prepare_layers
    first_fails e q = rw q

    abbrev rest : Result (List PreparedLayer) × Disk
    rest =
        prepare_layers json lseek root request layers
          (prepare_layer json lseek root request layer d).1

    rest_fails :
        (e : Error) (p : PreparedLayer)
        → (prepare_layer json lseek root request layer d).0 ≡ ok p
        → rest.0 ≡ err e
        → (prepare_layers json lseek root request (layer ∷ layers) d).0 ≡ err e
    unfolding prepare_layers
    rest_fails e p q h = rw (q, h)

    all_done :
        (p : PreparedLayer) (ps : List PreparedLayer) (e : Disk)
        → (prepare_layer json lseek root request layer d).0 ≡ ok p
        → rest ≡ (ok ps, e)
        → prepare_layers json lseek root request (layer ∷ layers) d ≡ (ok (p ∷ ps), e)
    unfolding prepare_layers
    all_done p ps e q h = rw (q, h) refl

  prepare_layers-Ends : (layers : List PrepareLayerDescriptor) (d : Disk) → Ends layers d
  unfolding prepare_layers
  prepare_layers-Ends [] d = inr ([], d, refl, (λ path m h held. held), tt)
  prepare_layers-Ends (layer ∷ layers) d = elim (prepare_layer-cases layer d) [
    | inl (e, q) ↦ inl (e, first_fails layer layers d e q)
    | inr (p, q, keeps, named, known) ↦
        elim (prepare_layers-Ends layers (prepare_layer json lseek root request layer d).1) [
          | inl (e, h) ↦ inl (e, rest_fails layer layers d e p q h)
          | inr (ps, e, h, stay, all) ↦ inr (
            p ∷ ps,
            e,
            all_done layer layers d p ps e q h,
            λ path m s held. stay path m s (keeps path m s held),
            (still known (stay p.sparse_path p.pmem_size named known.cached), all),
          )
        ]
  ]

  -- prepare_cache_layers fails; or the fetch unit is a valid one and each layer, in the order of
  -- the request, is prepared: it is native EROFS and not empty; its device has the blob's size
  -- aligned up, which the blob fits in; its cache file is layer.erofs in the directory of its key,
  -- and on the disk behind the call that file is at least as long as the device; and its
  -- description, its name and its bitmap's path are those of the layer.
  pub prepare_cache_layers-Ends :
      (layers : List PrepareLayerDescriptor) (d : Disk)
      → ((e : Error) × ((prepare_cache_layers json lseek root request layers d).0 ≡ err e))
        ⊎ ((ps : List PreparedLayer) × (e : Disk) × (prepare_cache_layers json lseek root request
                layers d
              ≡ (ok ps, e))
            × (validate_fetch_unit_bytes request.fetch.unit_bytes ≡ ok tt)
            × AllPrepared root request.pmem.alignment_bytes e layers ps)
  unfolding prepare_cache_layers
  prepare_cache_layers-Ends layers d =
      elim (Result-cases (validate_fetch_unit_bytes request.fetch.unit_bytes)) [
        | inr (e, q) ↦ inl (e, rw q)
        | inl (tt, q) ↦ elim (prepare_layers-Ends layers d) [
          | inl (e, h) ↦ inl (e, rw (q, h))
          | inr (ps, e, h, _, all) ↦ inr (ps, e, rw (q, h), q, all)
        ]
      ]
