-- ===== src/RangeMap/Open/Stale.antt =====
-- `initialize_file` cut off between its two writes: the header is new, the slots are old.
use lazyd.Base.{
  ℕ, ◌+◌, ◌-◌, ◌<◌, ◌≡◌, refl, ap, sym, ◌∙◌, Text, Bytes, ◌&&◌, Option, [], ◌∷◌, length, get_or,
  take, replicate, tabulate, tabulate-get_or, ltb, leb, if◌then◌else◌, arith, lt→ltb,
}
use lazyd.Errors.{IoError, io, ok, err}
use lazyd.Disk.{Disk, File, success, failure, byte_of, contents, put_file, splice, resize, file_at}
use lazyd.Disk.Laws.{
  set_len-ok, write_all_at-ok, write_all_at-err, byte-splice, byte_of-splice, put_file-same,
}
use lazyd.RangeMap.{header_size}
use lazyd.RangeMap.Open.{
  Header, HeaderCodec, CodecLaws, encode_header, decode_header, initialize_file,
}
use lazyd.RangeMap.Open.Codec.{decode-encode_header}
use lazyd.RangeMap.Open.Fresh.{byte_in}

head_of-splice :
    (f : File) (bytes : Bytes) → tabulate (length bytes) 0 (splice f 0 bytes).byte ≡ bytes
head_of-splice f [] = refl
head_of-splice f (b ∷ bytes) =
    tabulate-get_or (b ∷ bytes) 0 (splice f 0 (b ∷ bytes)).byte 0
      (λ k lt. byte-splice f 0 b bytes (0 + k) ∙ at_start k lt)
  where
    at_start :
        (k : ℕ)
        → k < length (b ∷ bytes)
        → (if leb 0 (0 + k) && ltb (0 + k) (0 + length (b ∷ bytes))
            then get_or (b ∷ bytes) (0 + k - 0) 0
            else byte_of f (0 + k))
          ≡ get_or (b ∷ bytes) k 0
    at_start k lt = let e : 0 + k - 0 ≡ k = omega arith in rw e (ground arith)

module _ (json : HeaderCodec) (path : Text) (header : Header) (encoded : Bytes) (d : Disk)
    (x : IoError) (q : encode_header json header ≡ ok encoded) (some_slots : 0 < header.slot_count)
    (first : d.plan d.calls ≡ success) (second : d.plan (d.calls + 1) ≡ success)
    (third : d.plan (d.calls + 1 + 1) ≡ failure 0 x) where
  abbrev longer : File
  longer = resize (file_at d path) (header_size + header.slot_count)

  abbrev titled : File
  titled = splice longer 0 encoded

  -- The disk behind the call of `set_len`, the write of the header and the write of the slots.
  abbrev d1 : Disk
  d1 = record d { files = put_file d.files path longer; calls = d.calls + 1 }

  abbrev d2 : Disk
  d2 = record d1 {
    files = put_file d1.files path (splice (file_at d1 path) 0 encoded);
    calls = d.calls + 1 + 1;
  }

  abbrev d3 : Disk
  d3 = record d2 {
    files =
        put_file d2.files path
          (splice (file_at d2 path) header_size (take 0 (replicate header.slot_count 0)));
    calls = d.calls + 1 + 1 + 1;
  }

  cut_off : initialize_file json path header d ≡ (err (io x), d3)
  unfolding initialize_file
  cut_off =
      rw
        (
          set_len-ok path (header_size + header.slot_count) d (ground (arith, first)),
          q,
          write_all_at-ok path encoded 0 d1 second,
          lt→ltb 0 header.slot_count some_slots,
          write_all_at-err path (replicate header.slot_count 0) header_size d2 0 x third,
        )
        refl

  left : contents (d3.files path) ≡ titled
  unfolding splice
  left =
      ap contents (put_file-same d2.files path (file_at d2 path))
      ∙ ap contents (put_file-same d1.files path (splice (file_at d1 path) 0 encoded))
      ∙ ap (λ (f : Option File). splice (contents f) 0 encoded) (put_file-same d.files path longer)

  title_read : CodecLaws json → decode_header json (tabulate header_size 0 titled.byte) ≡ ok header
  title_read laws =
      let (sized, decoded) = decode-encode_header json laws header encoded q in
      ap (decode_header json)
        (ap (λ n. tabulate n 0 titled.byte) (sym sized) ∙ head_of-splice longer encoded)
      ∙ decoded

  slot_kept :
      CodecLaws json
      → (k : ℕ) → k < header.slot_count
      → byte_of titled (header_size + k) ≡ byte_in d.files path (header_size + k)
  slot_kept laws k lt =
      let (sized, _) = decode-encode_header json laws header encoded q in
      let inside = lt→ltb (header_size + k) (header_size + header.slot_count) (omega arith) in
      byte_of-splice longer 0 encoded (header_size + k) ∙ rw (sized, inside) (ground arith)

  -- With JSON on one line that reads back, for a header with at least one slot that encode_header
  -- accepts: if the second write of initialize_file fails without writing anything,
  -- initialize_file fails with that error, and the file then has the new header while each of its
  -- slots has the byte that it had before.
  pub initialize_file_stale :
      CodecLaws json
      → ((initialize_file json path header d).0 ≡ err (io x))
        × (decode_header json (
              tabulate header_size 0
                (contents ((initialize_file json path header d).1.files path)).byte)
            ≡ ok header)
        × ((k : ℕ)
            → k < header.slot_count
            → byte_in (initialize_file json path header d).1.files path (header_size + k)
              ≡ byte_in d.files path (header_size + k))
  initialize_file_stale laws = (
    ap (λ r. r.0) cut_off,
    ap (λ r. decode_header json (tabulate header_size 0 (contents (r.1.files path)).byte)) cut_off
        ∙ ap (λ f. decode_header json (tabulate header_size 0 f.byte)) left
        ∙ title_read laws,
    λ k lt.
        ap (λ r. byte_in r.1.files path (header_size + k)) cut_off
        ∙ ap (λ f. byte_of f (header_size + k)) left
        ∙ slot_kept laws k lt,
  )
