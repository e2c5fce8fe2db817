-- ===== src/Daemon/Removal.antt =====
-- `unregister` keeps the daemon sound, whether it succeeds or fails.
use lazyd.Base.{
  ℕ, ◌≡◌, refl, ap, sym, subst, ◌∙◌, inl, inr, Text, text_eq, text_eq_sound, ◌&&◌, Option, none,
  some, Bool-cases, remove,
}
use lazyd.Errors.{Result, ok, err}
use lazyd.Instance.{Instance}
use lazyd.Instance.Fixed.{Serves-elsewhere}
use lazyd.Fanotify.Marks.{Marks, unmark}
use lazyd.Registry.{Setup, World, get, is_fanotify, put_marks, unmark_removed, unregister}
use lazyd.Registry.Changes.{unregister_lem}
use lazyd.Daemon.{Sound}

pub put_marks-disk : (m : Result Marks) (w : World) → (put_marks m w).1.disk ≡ w.disk
put_marks-disk (ok m) w = refl
put_marks-disk (err e) w = refl

module _ (setup : Setup) (blob : Text → ℕ → ℕ) where
  -- A world whose instances are some of those of a sound world, with the same files.
  pub fewer-Sound :
      (w v : World)
      → ((name : Text) (j : Instance) → get name v ≡ some j → get name w ≡ some j)
      → ((name : Text) (j : Instance)
          → get name w ≡ some j
          → (v.disk.files j.config.target_path ≡ w.disk.files j.config.target_path)
            × (v.disk.files j.range_map.file ≡ w.disk.files j.range_map.file))
      → Sound setup blob w
      → Sound setup blob v
  fewer-Sound w v old files s = record {
    serves = record {
      serves = λ name j g.
          let there = old name j g in
          Serves-elsewhere (blob name) j w.disk v.disk w.calls v.calls
            (s.serves.serves name j there) (files name j there).0 (files name j there).1;
      honest = λ name j g. s.serves.honest name j (old name j g);
    };
    apart = λ a b i j ga gb ne. s.apart a b i j (old a i ga) (old b j gb) ne;
  }

  unmark_removed-disk :
      (o : Option Instance) (w : World) → (unmark_removed setup o w).1.disk ≡ w.disk
  unfolding unmark_removed
  unmark_removed-disk none w = refl
  unmark_removed-disk (some i) w =
      elim (Bool-cases (setup.has_fanotify && is_fanotify i.config.trigger_mode)) [
        | inl h ↦ rw h (put_marks-disk (unmark setup.kernel w.disk i.config.target_path w.marks) w)
        | inr h ↦ rw h refl
      ]

  unregister-disk : (id : Text) (w : World) → (unregister setup id w).1.disk ≡ w.disk
  unfolding unregister
  unregister-disk id w =
      unmark_removed-disk (get id w) (record w { instances = remove text_eq id w.instances })

  pub unregister-Sound :
      (id : Text) (w : World) → Sound setup blob w → Sound setup blob (unregister setup id w).1
  unregister-Sound id w s =
      let (gone, others) = unregister_lem setup id w in
      let v : World = (unregister setup id w).1 in
      let same = unregister-disk id w in
      fewer-Sound w v
        (λ name j g. elim (Bool-cases (text_eq id name)) [
          | inr h ↦ sym (others name h) ∙ g
          | inl h ↦ let e = subst (λ n. get n v ≡ none) (text_eq_sound id name h) gone in absurd cc
        ])
        (λ name j g.
          (ap (λ d. d.files j.config.target_path) same, ap (λ d. d.files j.range_map.file) same))
        s
