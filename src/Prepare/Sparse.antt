-- ===== src/Prepare/Sparse.antt =====
-- `create_sparse_file` on every outcome of the calls that it makes.
use lazyd.Base.{
  ℕ, ◌+◌, ◌≤◌, ◌<◌, ◌≡◌, refl, ap, ◌∙◌, inl, inr, arith, Text, text_eq, true, false, ◌||◌, not,
  none, some, Option-cases, ltb, Bool-cases, ltb→lt, ltb→le,
}
use lazyd.Errors.{Error, IoError, Result, ok, err, io}
use lazyd.Disk.{
  Disk, failed, file_at, byte_of, put_file, resize, tick, exists, open_create, metadata_len,
  set_len, contents, is_some,
}
use lazyd.Disk.Laws.{put_file-same, put_file-other, set_len-ok, set_len-err}
use lazyd.Prepare.{create_sparse_file, size_file}

-- The bytes of the file at `path` are as before, up to `len`; a hole counts as zeros.
abbrev pub Keeps : Text → ℕ → Disk → Disk → Type 0
Keeps path len d e = (i : ℕ) → i < len → byte_of (file_at e path) i ≡ byte_of (file_at d path) i

-- No other file is touched. After `ok` the file is as long as wanted, which is no shorter than
-- before, with its bytes kept; after an error the file is as it was, as far as it is read.
pub record Sized (path : Text) (len : ℕ) (d : Disk) (r : Result (Unit {0})) (e : Disk)
    : Type 0 where
  pub others : (q : Text) → text_eq path q ≡ false → e.files q ≡ d.files q
  pub done :
      r ≡ ok tt → ((file_at e path).len ≡ len) × ((file_at d path).len ≤ len) × Keeps path len d e
  pub kept : (x : Error) → r ≡ err x → file_at e path ≡ file_at d path
  pub refused : (file_at d path).len ≤ len → (x : Error) → r ≡ err x → (e' : IoError) × (x ≡ io e')

module _ (path : Text) (len : ℕ) (d : Disk) where
  abbrev opened : Disk
  opened = record d { files = put_file d.files path (file_at d path); calls = d.calls + 1 }

  opened-file : file_at opened path ≡ file_at d path
  opened-file = ap contents (put_file-same d.files path (file_at d path))

  opened-other : (q : Text) → text_eq path q ≡ false → opened.files q ≡ d.files q
  opened-other q h = put_file-other d.files path q (file_at d path) h

  open_fails :
      (e : IoError)
      → failed (d.plan d.calls) ≡ some e
      → create_sparse_file path len d ≡ (err (io e), tick d)
  unfolding create_sparse_file open_create
  open_fails e q = rw q

  stat_fails :
      (e : IoError)
      → failed (d.plan d.calls) ≡ none
      → failed (d.plan (d.calls + 1)) ≡ some e
      → create_sparse_file path len d ≡ (err (io e), tick opened)
  unfolding create_sparse_file open_create metadata_len
  stat_fails e q h = rw (q, h)

  sizes :
      failed (d.plan d.calls) ≡ none
      → failed (d.plan (d.calls + 1)) ≡ none
      → create_sparse_file path len d
        ≡ size_file path len (exists path d) (file_at opened path).len (tick opened)
  unfolding create_sparse_file open_create metadata_len
  sizes q h = rw (q, h)

  Sized-failed :
      (e : IoError) (c : Disk)
      → file_at c path ≡ file_at d path
      → ((q : Text) → text_eq path q ≡ false → c.files q ≡ d.files q)
      → Sized path len d (err (io e)) c
  Sized-failed e c same other = record {
    others = other;
    done = λ z. cc;
    kept = λ x z. same;
    refused = λ le x z. (e, cc);
  }

  absent : exists path d ≡ false → (file_at d path).len ≡ 0
  unfolding exists
  absent h = elim (Option-cases (d.files path)) [
    | inl q ↦ rw q
    | inr (f, q) ↦ absurd (let z : is_some (d.files path) ≡ true = rw q in cc)
  ]

  no_longer :
      (not (exists path d) || ltb (file_at d path).len len) ≡ true → (file_at d path).len ≤ len
  no_longer h = elim (Bool-cases (exists path d)) [
    | inl q ↦ ground arith
    | inr q ↦ omega (arith, absent q)
  ]

  abbrev grown : Disk
  grown = record opened {
    files = put_file opened.files path (resize (file_at opened path) len);
    calls = opened.calls + 1 + 1;
  }

  Sized-grown : (file_at d path).len ≤ len → Sized path len d (ok tt) grown
  Sized-grown le = record {
    others = λ q h. put_file-other opened.files path q _ h ∙ opened-other q h;
    done = λ _.
        let here : file_at grown path ≡ resize (file_at opened path) len =
          ap contents (put_file-same opened.files path (resize (file_at opened path) len)) in
        (
          ap (λ f. f.len) here,
          le,
          λ i lt.
              ap (λ f. byte_of f i) here
              ∙ (let inside : byte_of (resize (file_at opened path) len) i
                      ≡ byte_of (file_at opened path) i =
                    ground arith in
                  inside)
              ∙ ap (λ f. byte_of f i) opened-file,
        );
    kept = λ x z. cc;
    refused = λ _ x z. cc;
  }

  grow_fails :
      (e : IoError)
      → failed (d.plan (d.calls + 1 + 1)) ≡ some e
      → set_len path len (tick opened) ≡ (err (io e), tick (tick opened))
  grow_fails e q = set_len-err path len (tick opened) e q

  grows : failed (d.plan (d.calls + 1 + 1)) ≡ none → set_len path len (tick opened) ≡ (ok tt, grown)
  grows q = set_len-ok path len (tick opened) q

  as_long :
      (not (exists path d) || ltb (file_at d path).len len) ≡ false
      → ltb len (file_at d path).len ≡ false
      → (file_at d path).len ≡ len
  as_long h k = ground arith

  Sized-size :
      Sized path len d
        (size_file path len (exists path d) (file_at opened path).len (tick opened)).0
        (size_file path len (exists path d) (file_at opened path).len (tick opened)).1
  unfolding size_file
  Sized-size =
      rw opened-file (elim (Bool-cases (not (exists path d) || ltb (file_at d path).len len)) [
        | inl h ↦ elim (Option-cases (failed (d.plan (d.calls + 1 + 1)))) [
          | inl q ↦ rw (h, grows q) (Sized-grown (no_longer h))
          | inr (e, q) ↦
              rw (h, grow_fails e q) (Sized-failed e (tick (tick opened)) opened-file opened-other)
        ]
        | inr h ↦ elim (Bool-cases (ltb len (file_at d path).len)) [
          | inl k ↦
              rw (h, k)
                (record {
                  others = opened-other;
                  done = λ z. cc;
                  kept = λ x z. opened-file;
                  refused = λ le x z. absurd (omega (arith, ltb→lt len (file_at d path).len k));
                })
          | inr k ↦
              rw (h, k)
                (record {
                  others = opened-other;
                  done = λ _. (
                    ap (λ f. f.len) opened-file ∙ as_long h k,
                    ltb→le len (file_at d path).len k,
                    λ i lt. ap (λ f. byte_of f i) opened-file,
                  );
                  kept = λ x z. cc;
                  refused = λ le x z. cc;
                })
        ]
      ])

  -- create_sparse_file touches no other file; after ok the file has the wanted length, was no
  -- longer before, and no byte has changed, a hole counting as zeros; after an error the file
  -- reads as before, and a file that is not too long is refused only with an error of the system.
  pub create_sparse_file-Sized :
      Sized path len d (create_sparse_file path len d).0 (create_sparse_file path len d).1
  create_sparse_file-Sized = elim (Option-cases (failed (d.plan d.calls))) [
    | inr (e, q) ↦ rw (open_fails e q) (Sized-failed e (tick d) refl (λ q' h. refl))
    | inl q ↦ elim (Option-cases (failed (d.plan (d.calls + 1)))) [
      | inr (e, h) ↦ rw (stat_fails e q h) (Sized-failed e (tick opened) opened-file opened-other)
      | inl h ↦ rw (sizes q h) Sized-size
    ]
  ]
