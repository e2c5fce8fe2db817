-- ===== src/RangeMap/Open/Fresh.antt =====
-- What `open_or_create` finds in the bitmap file or leaves there; here, what `initialize_file`
-- leaves there when it succeeds.
use lazyd.Base.{
  ℕ, zero, suc, ◌+◌, ◌-◌, ◌<◌, ◌≡◌, refl, ap, sym, subst, ◌∙◌, Text, Bytes, text_eq, Bool, true,
  false, Option, List, length, get_or, replicate, tabulate, ltb, arith, inl, inr, Bool-cases,
  length-replicate,
}
use lazyd.Errors.{ok}
use lazyd.Exec.{Exec, bind-parts, when, lift, pure, ◌>>=◌, ◌>>◌}
use lazyd.Disk.{
  Disk, File, byte_of, contents, put_file, splice, file_at, set_len, write_all_at, sync,
}
use lazyd.Disk.Laws.{byte_of-splice, put_file-same, put_file-other}
use lazyd.Disk.Laws.Files.{set_len-files, write_all_at-files, sync-files}
use lazyd.RangeMap.{header_size}
use lazyd.RangeMap.Open.{
  Header, header_eq, HeaderCodec, encode_header, decode_header, initialize_file, fresh_slots,
}

abbrev pub Files : Type 0
Files = Text → Option File

abbrev pub byte_in : Files → Text → ℕ → ℕ
byte_in files path i = byte_of (contents (files path)) i

-- The slots come from a file with the expected header; or the file has been initialised, and no
-- slot is set, in memory or in the file.
pub data Loaded (json : HeaderCodec) (path : Text) (expected : Header) (files : Files)
    (slots : List ℕ) (after : Files) : Type 0 where
  found :
      (h : Header)
      → decode_header json (tabulate header_size 0 (contents (files path)).byte) ≡ ok h
      → header_eq h expected ≡ true
      → length slots ≡ expected.slot_count
      → ((k : ℕ)
          → k < expected.slot_count
          → get_or slots k 0 ≡ byte_in files path (header_size + k))
      → ((i : ℕ) → byte_in after path i ≡ byte_in files path i)
      → ((q : Text) → text_eq path q ≡ false → after q ≡ files q)
      → Loaded json path expected files slots after
  fresh :
      slots ≡ replicate expected.slot_count 0
      → ((k : ℕ) → k < expected.slot_count → byte_in after path (header_size + k) ≡ 0)
      → ((q : Text) → text_eq path q ≡ false → after q ≡ files q)
      → Loaded json path expected files slots after

pub get_or-replicate : (n k : ℕ) → k < n → ◌≡◌ {A = ℕ} (get_or (replicate n 0) k 0) 0
get_or-replicate zero k lt = absurd (omega arith)
get_or-replicate (suc n) zero lt = refl
get_or-replicate (suc n) (suc k) lt = get_or-replicate n k (omega arith)

-- A chain of writes to one file keeps the others.
Others : Text → Files → Files → Type 0
Others path files after = (q : Text) → text_eq path q ≡ false → after q ≡ files q

put-Others :
    (path : Text) (f : File) (files before after : Files)
    → after ≡ put_file before path f
    → Others path files before
    → Others path files after
unfolding Others
put-Others path f files before after e o q ne =
    ap (λ (g : Files). g q) e ∙ put_file-other before path q f ne ∙ o q ne

module _ (json : HeaderCodec) (path : Text) (expected : Header) where
  abbrev Zeroed : Files → Files → Type 0
  Zeroed files after =
      ((k : ℕ) → k < expected.slot_count → byte_in after path (header_size + k) ≡ 0)
      × Others path files after

  -- `initialize_file` behind the call of `set_len`, of `encode_header` and of `write_all` of the
  -- header.
  abbrev behind_header : Exec Disk Unit
  behind_header = do
    when (ltb 0 expected.slot_count)
        (write_all_at path (replicate expected.slot_count 0) header_size)
    sync

  abbrev behind_encode : Bytes → Exec Disk Unit
  behind_encode encoded = do write_all_at path encoded 0; behind_header

  abbrev behind_len : Exec Disk Unit
  behind_len = do encoded ← lift (encode_header json expected); behind_encode encoded

  abbrev write_zeros : Exec Disk Unit
  write_zeros = write_all_at path (replicate expected.slot_count 0) header_size

  zeros_written :
      (d : Disk) (files : Files) (u : Unit)
      → (write_zeros d).0 ≡ ok u
      → files ≡ (write_zeros d).1.files
      → Zeroed d.files files
  unfolding Others
  zeros_written d files u q same =
      let now =
        same ∙ write_all_at-files path (replicate expected.slot_count 0) header_size d u q in
      (
        λ k lt.
            let sized = length-replicate {A = ℕ} expected.slot_count 0 in
            let zero_at = get_or-replicate expected.slot_count k lt in
            let here =
              ap (λ (g : Files). byte_of (contents (g path)) (header_size + k)) now
              ∙ ap (λ f. byte_of (contents f) (header_size + k))
                  (put_file-same d.files path
                    (splice (file_at d path) header_size (replicate expected.slot_count 0)))
              ∙ byte_of-splice (file_at d path) header_size (replicate expected.slot_count 0)
                  (header_size + k) in
            let index : header_size + k - header_size ≡ k = omega arith in
            here ∙ rw (sized, index) (ground (arith, zero_at)),
        put-Others path _ d.files d.files files now (λ r ne. refl),
      )

  behind_header-Zeroed :
      (d e : Disk) (u : Unit) → behind_header d ≡ (ok u, e) → Zeroed d.files e.files
  unfolding Others
  behind_header-Zeroed d e u h =
      let (_, q, h1) =
        bind-parts (when (ltb 0 expected.slot_count) write_zeros) (λ _. sync) d u e h in
      let same : e.files ≡ (when (ltb 0 expected.slot_count) write_zeros d).1.files =
        ap (λ x. x.1.files) (sym h1)
        ∙ sync-files (when (ltb 0 expected.slot_count) write_zeros d).1 in
      elim (Bool-cases (ltb 0 expected.slot_count)) [
        | inr no_slots ↦
            let kept : e.files ≡ d.files = rw no_slots at same in
            (λ k lt. absurd (ground arith), λ r ne. ap (λ (g : Files). g r) kept)
        | inl some_slots ↦ zeros_written d e.files tt (rw some_slots at q) (rw some_slots at same)
      ]

  initialize_file-Zeroed :
      (d e : Disk) (u : Unit)
      → initialize_file json path expected d ≡ (ok u, e)
      → Zeroed d.files e.files
  unfolding initialize_file Others
  initialize_file-Zeroed d e u h =
      let (_, sized, h1) =
        bind-parts (set_len path (header_size + expected.slot_count)) (λ _. behind_len) d u e h in
      let d1 : Disk = (set_len path (header_size + expected.slot_count) d).1 in
      let (encoded, q, h2) =
        bind-parts (lift (encode_header json expected)) behind_encode d1 u e h1 in
      let (_, head, h3) = bind-parts (write_all_at path encoded 0) (λ _. behind_header) d1 u e h2 in
      let (zeros, others) = behind_header-Zeroed (write_all_at path encoded 0 d1).1 e u h3 in
      let start : Others path d.files d1.files =
        put-Others path _ d.files d.files d1.files
          (set_len-files path (header_size + expected.slot_count) d _ sized) (λ r ne. refl) in
      let titled : Others path d.files (write_all_at path encoded 0 d1).1.files =
        put-Others path _ d.files d1.files _ (write_all_at-files path encoded 0 d1 _ head) start in
      (zeros, λ r ne. others r ne ∙ titled r ne)

  pub fresh_slots-Loaded :
      (d e : Disk) (files : Files) (out : List ℕ × Bool)
      → d.files ≡ files
      → fresh_slots json path expected d ≡ (ok out, e)
      → Loaded json path expected files out.0 e.files
  unfolding fresh_slots Others
  fresh_slots-Loaded d e files out same h =
      let made : List ℕ × Bool = (replicate expected.slot_count 0, false) in
      let (u, q, h1) = bind-parts (initialize_file json path expected) (λ _. pure made) d out e h in
      let d1 : Disk = (initialize_file json path expected d).1 in
      let (zeros, others) = initialize_file-Zeroed d d1 u (ap (λ r. (r, d1)) q) in
      let value : made ≡ out = cc in
      let disk : d1 ≡ e = ap (λ x. x.1) h1 in
      fresh (sym (ap (λ o. o.0) value))
        (subst (λ x. (k : ℕ) → k < expected.slot_count → byte_in x.files path (header_size + k) ≡ 0)
          disk zeros)
        (λ r ne. ap (λ x. x.files r) (sym disk) ∙ others r ne ∙ ap (λ (g : Files). g r) same)
