-- ===== src/Instance/Tasks/Turns/Writing.antt =====
-- One round of the loop of `write_all_at`, while other calls write their own bytes of the blob.
use lazyd.Base.{
  ℕ, zero, suc, ◌+◌, ◌-◌, ◌≤◌, ◌<◌, ◌≡◌, refl, ap, sym, ◌∙◌, inl, inr, Text, Bytes, true, false,
  length, get_or, drop, ltb, arith, length-drop, get_or-drop, Bool-cases, ltb→lt, ltb→le,
}
use lazyd.Errors.{Result, ok, err, io}
use lazyd.Disk.{Disk, write_at}
use lazyd.Instance.{InstanceState, Range, write_zero}
use lazyd.Instance.Write.{byte_at}
use lazyd.Instance.Write.Once.{Put, write_at-Put}
use lazyd.Instance.Backed.{Written-Backed, good_stays}
use lazyd.Instance.Fetch.{Serves}
use lazyd.Instance.Tasks.{marking, wrote, with_disk, write_more}
use lazyd.Instance.Tasks.Facts.{Grows, WantsIn, InFile, Genuine}
use lazyd.Instance.Tasks.Turns.{Turned, Turned-same}

module _ (blob : ℕ → ℕ) (s : InstanceState) (v : Serves blob s) (offset len : ℕ) (range : Range)
    (w : WantsIn s offset len range) (bytes : Bytes) (genuine : Genuine blob range bytes)
    (written : ℕ) (le : written ≤ length bytes) (h : InFile blob s range written) where
  abbrev target : Text
  target = s.inst.config.target_path

  abbrev rest : Bytes
  rest = drop written bytes

  abbrev went : Result ℕ × Disk
  went = write_at target rest (range.offset + written) s.disk

  rest-length : length rest + written ≡ length bytes
  rest-length = omega (arith, length-drop written bytes)

  rest_genuine : (k : ℕ) → k < length rest → get_or rest k 0 ≡ blob (range.offset + written + k)
  rest_genuine k lt =
      let q : range.offset + (written + k) ≡ range.offset + written + k = omega arith in
      get_or-drop written bytes k 0
      ∙ genuine.1 (written + k) (omega (arith, rest-length))
      ∙ ap blob q

  module _ (n : ℕ) (p : Put target rest (range.offset + written) s.disk n went.1) where
    stays : (i : ℕ) → byte_at s.disk target i ≡ blob i → byte_at went.1 target i ≡ blob i
    stays =
        good_stays blob target s.inst.range_map s.disk v.backed rest (range.offset + written)
          (err (io write_zero)) went.1 p.written rest_genuine

    went-Grows : Grows blob s (with_disk s went.1)
    went-Grows = record {
      config = refl;
      file = refl;
      unit = refl;
      size = refl;
      ready = λ i q. q;
      good = stays;
    }

    went-Serves : Serves blob (with_disk s went.1)
    went-Serves = record {
      backed =
          Written-Backed blob target s.inst.range_map s.disk v.backed rest (range.offset + written)
            (err (io write_zero)) went.1 p.written rest_genuine;
      consistent = v.consistent;
    }

    -- The bytes up to those just written are in the file.
    went-InFile : InFile blob (with_disk s went.1) range (written + n)
    went-InFile i lo hi = elim (Bool-cases (ltb i (range.offset + written))) [
      | inl lt ↦ stays i (h i lo (ltb→lt i (range.offset + written) lt))
      | inr ge ↦
          let above : range.offset + written ≤ i = ltb→le i (range.offset + written) ge in
          let k : ℕ = i - (range.offset + written) in
          let q : range.offset + written + k ≡ i = omega arith in
          ap (byte_at went.1 target) (sym q)
          ∙ p.new k (omega arith)
          ∙ rest_genuine k (omega (arith, p.few))
          ∙ ap blob q
    ]

    wrote-Turned :
        (r : Result ℕ)
        → ((m : ℕ) → r ≡ ok m → m ≡ n)
        → Turned blob s (wrote offset len range bytes written r) (with_disk s went.1)
    wrote-Turned (err e) same = record {
      serves = went-Serves;
      grows = went-Grows;
      fact = (w, λ z. cc);
    }
    wrote-Turned (ok zero) same = record {
      serves = went-Serves;
      grows = went-Grows;
      fact = (w, λ z. cc);
    }
    wrote-Turned (ok (suc m)) same =
        let e : suc m ≡ n = same (suc m) refl in
        record {
          serves = went-Serves;
          grows = went-Grows;
          fact = (w, genuine, omega (arith, p.few, rest-length), rw e went-InFile);
        }

  more :
      ltb written (length bytes) ≡ true
      → write_more offset len range bytes written s
        ≡ (wrote offset len range bytes written went.0, with_disk s went.1)
  unfolding write_more
  more lt = rw lt

  all_written :
      ltb written (length bytes) ≡ false
      → write_more offset len range bytes written s ≡ (marking offset len range, s)
  unfolding write_more
  all_written ge = rw ge

  pub write_more-Turned :
      Turned blob s
        (write_more offset len range bytes written s).0
        (write_more offset len range bytes written s).1
  write_more-Turned = elim (Bool-cases (ltb written (length bytes))) [
    | inr ge ↦
        let full : written ≡ range.len =
          omega (arith, ltb→le written (length bytes) ge, genuine.0) in
        rw (all_written ge) (Turned-same blob s v (marking offset len range) (w, rw full at h))
    | inl lt ↦ rw (more lt) (elim (write_at-Put target rest (range.offset + written) s.disk) [
      | inl (x, n, q, p) ↦ wrote-Turned n p went.0 (λ m z. cc)
      | inr (n, q, p) ↦ wrote-Turned n p went.0 (λ m z. cc)
    ])
  ]
