-- ===== src/RangeMap/Open/Load.antt =====
-- What `open_or_create` finds in the bitmap file: its header and its slots.
use lazyd.Base.{
  ℕ, ◌+◌, ◌≤◌, ◌<◌, ◌≡◌, refl, ap, sym, subst, ◌∙◌, Text, Bytes, text_eq, Bool, true, false, List,
  [], length, get_or, tabulate, ◌==◌, arith, inl, inr, Bool-cases, length-tabulate, get_or-tabulate,
  ==→eq, lt→ltb,
}
use lazyd.Errors.{Result, ok, err}
use lazyd.Exec.{bind-ok, Result-cases, lift}
use lazyd.Disk.{Disk, byte_of, contents, put_file, file_at, read_exact_at}
use lazyd.Disk.Laws.{put_file-same, put_file-other}
use lazyd.Disk.Laws.Files.{read_exact_at-files, read_exact_at-bytes}
use lazyd.RangeMap.{header_size}
use lazyd.RangeMap.Open.{
  Header, header_eq, HeaderCodec, decode_header, read_header, read_slots, slots_of, found_slots,
  load_slots,
}
use lazyd.RangeMap.Open.Fresh.{Files, byte_in, Loaded, found, fresh, fresh_slots-Loaded}

module _ (json : HeaderCodec) (path : Text) (expected : Header) where
  -- The slots that a read of the file gives.
  abbrev Same : Disk → List ℕ → Disk → Type 0
  Same d slots e =
      (length slots ≡ expected.slot_count)
      × ((k : ℕ)
          → k < expected.slot_count
          → get_or slots k 0 ≡ byte_in d.files path (header_size + k))
      × (e.files ≡ d.files)

  table-Same :
      (d e : Disk) (slots : List ℕ)
      → header_size + expected.slot_count ≤ (file_at d path).len
      → slots ≡ tabulate expected.slot_count header_size (file_at d path).byte
      → e.files ≡ d.files
      → Same d slots e
  table-Same d e slots fits q kept = (
    rw q (length-tabulate expected.slot_count header_size (file_at d path).byte),
    λ k lt.
        let inside = lt→ltb (header_size + k) (file_at d path).len (omega arith) in
        rw (q, inside)
          (get_or-tabulate expected.slot_count header_size (file_at d path).byte k 0 lt),
    kept,
  )

  read_slots-Same :
      (d : Disk) (slots : List ℕ)
      → (read_slots json path expected.slot_count d).0 ≡ ok slots
      → Same d slots (read_slots json path expected.slot_count d).1
  unfolding read_slots
  read_slots-Same d slots q = elim (Bool-cases (expected.slot_count == 0)) [
    | inl h ↦
        let zero_slots = ==→eq expected.slot_count 0 h in
        let value : [] ≡ slots = (let z = rw h at q in cc) in
        (rw (← value, zero_slots) refl, λ k lt. absurd (omega arith), rw h refl)
    | inr h ↦
        let z = rw h at q in
        let (fits, bytes) = read_exact_at-bytes path expected.slot_count header_size d slots z in
        rw h (
          table-Same d (read_exact_at path expected.slot_count header_size d).1 slots fits bytes
            (read_exact_at-files path expected.slot_count header_size d))
  ]

  read_slots-files : (d : Disk) → (read_slots json path expected.slot_count d).1.files ≡ d.files
  unfolding read_slots
  read_slots-files d = elim (Bool-cases (expected.slot_count == 0)) [
    | inl h ↦ rw h refl
    | inr h ↦ rw h (read_exact_at-files path expected.slot_count header_size d)
  ]

  -- The first `header_size` bytes of the file.
  abbrev head_bytes : Files → Bytes
  head_bytes files = tabulate header_size 0 (contents (files path)).byte

  found_slots-Loaded :
      (d e : Disk) (files : Files) (r : Result Header) (out : List ℕ × Bool)
      → d.files ≡ files
      → ((h : Header) → r ≡ ok h → decode_header json (head_bytes files) ≡ ok h)
      → found_slots json path expected r d ≡ (ok out, e)
      → Loaded json path expected files out.0 e.files
  unfolding found_slots slots_of
  found_slots-Loaded d e files (err x) out same reads h =
      fresh_slots-Loaded json path expected d e files out same h
  found_slots-Loaded d e files (ok header) out same reads h =
      elim (Bool-cases (header_eq header expected)) [
        | inr differs ↦ fresh_slots-Loaded json path expected d e files out same (rw differs at h)
        | inl fits ↦
            let d1 : Disk = (read_slots json path expected.slot_count d).1 in
            elim (Result-cases (read_slots json path expected.slot_count d).0) [
              | inr (x, q) ↦
                  fresh_slots-Loaded json path expected d1 e files out (read_slots-files d ∙ same)
                    (rw (fits, q) at h)
              | inl (slots, q) ↦
                  let (sized, bytes, kept) = read_slots-Same d slots q in
                  let z = rw (fits, q) at h in
                  let value : (slots, true) ≡ out = cc in
                  let after : e.files ≡ files = ap (λ x. x.1.files) (sym z) ∙ kept ∙ same in
                  found header (reads header refl) fits (ap (λ o. length o.0) (sym value) ∙ sized)
                    (λ k lt.
                      ap (λ o. get_or o.0 k 0) (sym value)
                      ∙ bytes k lt
                      ∙ ap (λ (g : Files). byte_in g path (header_size + k)) same)
                    (λ i. ap (λ (g : Files). byte_in g path i) after)
                    (λ p ne. ap (λ (g : Files). g p) after)
            ]
      ]

  read_header-files : (d : Disk) → (read_header json path d).1.files ≡ d.files
  unfolding read_header
  read_header-files d = elim (Result-cases (read_exact_at path header_size 0 d).0) [
    | inl (b, q) ↦ rw q (read_exact_at-files path header_size 0 d)
    | inr (x, q) ↦ rw q (read_exact_at-files path header_size 0 d)
  ]

  read_header-reads :
      (d : Disk) (h : Header)
      → (read_header json path d).0 ≡ ok h
      → decode_header json (head_bytes d.files) ≡ ok h
  unfolding read_header
  read_header-reads d h q =
      let (bytes, read, decoded) =
        bind-ok (read_exact_at path header_size 0) (λ buf. lift (decode_header json buf)) d h q in
      let (_, same) = read_exact_at-bytes path header_size 0 d bytes read in
      ap (decode_header json) (sym same) ∙ decoded

  pub load_slots-Loaded :
      (existed : Bool) (d e : Disk) (out : List ℕ × Bool)
      → load_slots json existed path expected d ≡ (ok out, e)
      → Loaded json path expected d.files out.0 e.files
  unfolding load_slots
  load_slots-Loaded false d e out h = fresh_slots-Loaded json path expected d e d.files out refl h
  load_slots-Loaded true d e out h =
      found_slots-Loaded (read_header json path d).1 e d.files (read_header json path d).0 out
        (read_header-files d) (read_header-reads d) h

  -- The same, where the file was made first if there was none.
  pub Loaded-created :
      (slots : List ℕ) (d : Disk) (files after : Files)
      → files ≡ put_file d.files path (file_at d path)
      → Loaded json path expected files slots after
      → Loaded json path expected d.files slots after
  Loaded-created slots d files after q l =
      let here : contents (files path) ≡ contents (d.files path) =
        ap (λ (g : Files). contents (g path)) q
        ∙ ap contents (put_file-same d.files path (file_at d path)) in
      let others : (p : Text) → text_eq path p ≡ false → files p ≡ d.files p =
        λ p ne. ap (λ (g : Files). g p) q ∙ put_file-other d.files path p (file_at d path) ne in
      elim l [
        | found h reads fits sized bytes kept_bytes kept ↦
            found h
              (subst (λ f. decode_header json (tabulate header_size 0 f.byte) ≡ ok h) here reads)
              fits sized (λ k lt. bytes k lt ∙ ap (λ f. byte_of f (header_size + k)) here)
              (λ i. kept_bytes i ∙ ap (λ f. byte_of f i) here) (λ p ne. kept p ne ∙ others p ne)
        | fresh empty zeros kept ↦ fresh empty zeros (λ p ne. kept p ne ∙ others p ne)
      ]
