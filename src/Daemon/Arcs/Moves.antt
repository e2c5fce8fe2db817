-- ===== src/Daemon/Arcs/Moves.antt =====
-- Each move of the daemon keeps what is known of its instances and of the calls on them.
use mathlib.Core.Path.{subst₂}
use lazyd.Base.{
  ℕ, ◌≡◌, ap, sym, subst, inl, inr, Text, false, none, some, ◌==◌, Bool-cases, Option-cases,
}
use lazyd.Instance.{Instance}
use lazyd.Instance.Fetch.{IsHonest}
use lazyd.Instance.Fixed.{Local, Local-refl}
use lazyd.Instance.Tasks.{is_resting, System, Step, call, run, dropped}
use lazyd.Instance.Tasks.Invariant.{Inv}
use lazyd.Instance.Tasks.Steps.{Step-Stepped}
use lazyd.Instance.Tasks.Local.{turn-Local, cancel-Local}
use lazyd.Registry.{Setup}
use lazyd.Registry.Apart.{PathsApart, FilesApart}
use lazyd.Daemon.Arcs.{Live, system, settled, at_address, call_arc, run_arc, begin_call, drop_arc}
use lazyd.Daemon.Arcs.Change.{LiveInv, at-same, at-other, changed-LiveInv}

module _ (l : Live) (a : ℕ) (change : Instance → System → System) where
  at_address-none : l.arcs a ≡ none → at_address l a change ≡ l
  unfolding at_address
  at_address-none q = rw (q, at_address)

  at_address-some :
      (i : Instance)
      → l.arcs a ≡ some i
      → at_address l a change ≡ settled l a (change i (system l a i))
  unfolding at_address
  at_address-some i q = rw (q, at_address)

module _ (setup : Setup) (blob : ℕ → ℕ → ℕ) (l : Live) (v : LiveInv setup blob l) where
  module _ (a : ℕ) (i : Instance) (q : l.arcs a ≡ some i) where
    settled-LiveInv :
        (u : System)
        → Inv (blob a) u
        → Local (system l a i).shared u.shared
        → LiveInv setup blob (settled l a u)
    settled-LiveInv u inv local =
        let files : (b : ℕ) (j : Instance) → l.arcs b ≡ some j → (a == b) ≡ false → FilesApart i j =
          λ b j g h. v.apart a b i j q g h in
        changed-LiveInv setup blob l (settled l a u) v a u.shared.inst
          (at-same l.arcs a (some u.shared.inst))
          (λ b h. at-other l.arcs a b (some u.shared.inst) h) (λ b h. at-other l.pc a b u.pc h)
          (subst (λ p. Inv (blob a) (record { shared = u.shared; pc = p }))
            (sym (at-same l.pc a u.pc)) inv)
          (subst (λ c. IsHonest (blob a) (setup.backend c)) (sym local.config) (v.honest a i q))
          (λ b j g h.
            subst₂ (λ t m. PathsApart t m j) (sym (ap (λ c. c.target_path) local.config))
              (sym local.file) (files b j g h))
          (λ b j g h.
            let f = files b j g h in
            (
              local.others j.config.target_path f.targets f.map_target,
              local.others j.range_map.file f.target_map f.maps,
            ))

    step-LiveInv :
        (u : System)
        → Step (setup.backend i.config) (system l a i) u
        → Local (system l a i).shared u.shared
        → LiveInv setup blob (settled l a u)
    step-LiveInv u step local =
        settled-LiveInv u
          (Step-Stepped (blob a) (setup.backend i.config) (v.honest a i q) (system l a i) u
            (v.inv a i q) step).inv
          local

  at_address-LiveInv :
      (a : ℕ) (change : Instance → System → System)
      → ((i : Instance)
          → l.arcs a ≡ some i
          → LiveInv setup blob (settled l a (change i (system l a i))))
      → LiveInv setup blob (at_address l a change)
  at_address-LiveInv a change h = elim (Option-cases (l.arcs a)) [
    | inl q ↦ rw (at_address-none l a change q) v
    | inr (i, q) ↦ rw (at_address-some l a change i q) (h i q)
  ]

  pub run_arc-LiveInv : (a k : ℕ) → LiveInv setup blob (run_arc setup a k l)
  unfolding run_arc
  run_arc-LiveInv a k = at_address-LiveInv a _ (λ i q.
      step-LiveInv a i q _ (run k)
        (turn-Local (setup.backend i.config) (l.pc a k) (system l a i).shared))

  pub drop_arc-LiveInv : (a k : ℕ) → LiveInv setup blob (drop_arc setup a k l)
  unfolding drop_arc
  drop_arc-LiveInv a k =
      at_address-LiveInv a _
        (λ i q. step-LiveInv a i q _ (dropped k) (cancel-Local (l.pc a k) (system l a i).shared))

  called-LiveInv :
      (k offset len a : ℕ) (i : Instance)
      → l.arcs a ≡ some i
      → LiveInv setup blob (settled l a (begin_call k offset len (system l a i)))
  called-LiveInv k offset len a i q =
      let stays = Local-refl (system l a i).shared in
      elim (Bool-cases (is_resting (l.pc a k))) [
        | inl h ↦ rw h (step-LiveInv a i q _ (call k offset len h) stays)
        | inr h ↦ rw h (settled-LiveInv a i q (system l a i) (v.inv a i q) stays)
      ]

  pub call_arc-LiveInv :
      (id : Text) (k offset len : ℕ) → LiveInv setup blob (call_arc setup id k offset len l)
  unfolding call_arc
  call_arc-LiveInv id k offset len = elim (Option-cases (l.names id)) [
    | inl q ↦ rw (q, call_arc) v
    | inr (a, q) ↦
        rw (q, call_arc)
          (at_address-LiveInv a (λ _. begin_call k offset len) (called-LiveInv k offset len a))
  ]
