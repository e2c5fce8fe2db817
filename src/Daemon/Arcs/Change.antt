-- ===== src/Daemon/Arcs/Change.antt =====
-- A change of one instance, which leaves the files of the others, keeps what is known of all.
use lazyd.Base.{
  ℕ, ◌≡◌, refl, ap, sym, subst, ◌∙◌, inl, inr, false, none, some, ◌==◌, ==→eq, Bool-cases, arith,
}
use lazyd.Instance.{Instance}
use lazyd.Instance.Fetch.{IsHonest}
use lazyd.Instance.Tasks.{idle}
use lazyd.Instance.Tasks.Invariant.{Inv}
use lazyd.Instance.Tasks.Steps.{Stepped-elsewhere}
use lazyd.Registry.{Setup}
use lazyd.Registry.Apart.{FilesApart, FilesApart-sym}
use lazyd.Daemon.Arcs.{Live, at, system, free_arc}

-- The invariant of concurrent calls for each instance, and no file that two of them share.
pub record LiveInv (setup : Setup) (blob : ℕ → ℕ → ℕ) (l : Live) : Type 0 where
  pub inv : (a : ℕ) (i : Instance) → l.arcs a ≡ some i → Inv (blob a) (system l a i)
  pub honest :
      (a : ℕ) (i : Instance) → l.arcs a ≡ some i → IsHonest (blob a) (setup.backend i.config)
  pub apart :
      (a b : ℕ) (i j : Instance)
      → l.arcs a ≡ some i
      → l.arcs b ≡ some j
      → (a == b) ≡ false
      → FilesApart i j
  pub unused : (a : ℕ) → l.arcs a ≡ none → (k : ℕ) → l.pc a k ≡ idle

pub at-same : {X : Type 0} (f : ℕ → X) (a : ℕ) (x : X) → at f a x a ≡ x
at-same f a x = ground arith

pub at-other : {X : Type 0} (f : ℕ → X) (a b : ℕ) (x : X) → (a == b) ≡ false → at f a x b ≡ f b
at-other f a b x h = rw h refl

pub ==-sym : (a b : ℕ) → (a == b) ≡ false → (b == a) ≡ false
==-sym a b h = ground arith

-- The files of the instance at `b` are as they were.
abbrev pub SameFiles : Live → Live → Instance → Type 0
SameFiles l m j =
    (m.disk.files j.config.target_path ≡ l.disk.files j.config.target_path)
    × (m.disk.files j.range_map.file ≡ l.disk.files j.range_map.file)

module _ (setup : Setup) (blob : ℕ → ℕ → ℕ) (l m : Live) (v : LiveInv setup blob l) where
  kept-Inv :
      (b : ℕ) (j : Instance)
      → l.arcs b ≡ some j
      → SameFiles l m j
      → m.pc b ≡ l.pc b
      → Inv (blob b) (system m b j)
  kept-Inv b j q files same =
      subst
        (λ p.
          Inv (blob b)
            (record { shared = record { inst = j; disk = m.disk; calls = m.calls }; pc = p }))
        (sym same)
        (Stepped-elsewhere (blob b) (setup.backend j.config) (v.honest b j q) (system l b j) m.disk
          m.calls (v.inv b j q) files.0 files.1).inv

  -- No instance has changed.
  pub unchanged-LiveInv :
      m.arcs ≡ l.arcs
      → m.pc ≡ l.pc
      → ((b : ℕ) (j : Instance) → l.arcs b ≡ some j → SameFiles l m j)
      → LiveInv setup blob m
  unchanged-LiveInv arcs pc files = record {
    inv = λ b j q.
        let there = ap (λ f. f b) (sym arcs) ∙ q in
        kept-Inv b j there (files b j there) (ap (λ f. f b) pc);
    honest = λ b j q. v.honest b j (ap (λ f. f b) (sym arcs) ∙ q);
    apart = λ a b i j p q ne.
        v.apart a b i j (ap (λ f. f a) (sym arcs) ∙ p) (ap (λ f. f b) (sym arcs) ∙ q) ne;
    unused = λ a q k. ap (λ f. f a k) pc ∙ v.unused a (ap (λ f. f a) (sym arcs) ∙ q) k;
  }

  -- The instance at `a` has changed or is new.
  module _ (a : ℕ) (i : Instance) (here : m.arcs a ≡ some i)
      (there : (b : ℕ) → (a == b) ≡ false → m.arcs b ≡ l.arcs b)
      (tasks : (b : ℕ) → (a == b) ≡ false → m.pc b ≡ l.pc b) where
    by_address :
        (P : ℕ → Instance → Type 0)
        → P a i
        → ((b : ℕ) (j : Instance) → l.arcs b ≡ some j → (a == b) ≡ false → P b j)
        → (b : ℕ) (j : Instance) → m.arcs b ≡ some j
        → P b j
    by_address P new old b j q = elim (Bool-cases (a == b)) [
      | inr h ↦ old b j (sym (there b h) ∙ q) h
      | inl h ↦
          let e = subst (λ c. m.arcs c ≡ some i) (==→eq a b h) here in
          let eq : i ≡ j = cc in subst (λ c. P c j) (==→eq a b h) (subst (P a) eq new)
    ]

    pub changed-LiveInv :
        Inv (blob a) (system m a i)
        → IsHonest (blob a) (setup.backend i.config)
        → ((b : ℕ) (j : Instance) → l.arcs b ≡ some j → (a == b) ≡ false → FilesApart i j)
        → ((b : ℕ) (j : Instance) → l.arcs b ≡ some j → (a == b) ≡ false → SameFiles l m j)
        → LiveInv setup blob m
    changed-LiveInv inv honest apart files = record {
      inv =
          by_address (λ b j. Inv (blob b) (system m b j)) inv
            (λ b j q h. kept-Inv b j q (files b j q h) (tasks b h));
      honest =
          by_address (λ b j. IsHonest (blob b) (setup.backend j.config)) honest
            (λ b j q _. v.honest b j q);
      apart = λ b c x y p q ne.
          by_address
            (λ n j. (k : ℕ) (z : Instance) → m.arcs k ≡ some z → (n == k) ≡ false → FilesApart j z)
            (by_address (λ k z. (a == k) ≡ false → FilesApart i z) (λ h. absurd (ground arith))
              (λ k z g h _. apart k z g h))
            (λ n j gn hn.
              by_address (λ k z. (n == k) ≡ false → FilesApart j z)
                (λ _. FilesApart-sym i j (apart n j gn hn)) (λ k z gk _ h. v.apart n k j z gn gk h))
            b x p c y q ne;
      unused = λ b q k. elim (Bool-cases (a == b)) [
        | inr h ↦ ap (λ f. f k) (tasks b h) ∙ v.unused b (sym (there b h) ∙ q) k
        | inl h ↦ let e = subst (λ c. m.arcs c ≡ some i) (==→eq a b h) here in absurd cc
      ];
    }

module _ (setup : Setup) (blob : ℕ → ℕ → ℕ) (l : Live) (v : LiveInv setup blob l) (a : ℕ) where
  before_free :
      (b : ℕ) (j : Instance)
      → (free_arc a l).arcs b ≡ some j
      → (l.arcs b ≡ some j) × ((a == b) ≡ false)
  before_free b j q = elim (Bool-cases (a == b)) [
    | inl h ↦ let e : none ≡ some j = sym (rw h refl) ∙ q in absurd cc
    | inr h ↦ (sym (at-other l.arcs a b none h) ∙ q, h)
  ]

  pub free_arc-LiveInv : LiveInv setup blob (free_arc a l)
  free_arc-LiveInv = record {
    inv = λ b j q.
        let (there, h) = before_free b j q in
        kept-Inv setup blob l (free_arc a l) v b j there (refl, refl)
          (at-other l.pc a b (λ _. idle) h);
    honest = λ b j q. v.honest b j (before_free b j q).0;
    apart = λ b c i j p q ne. v.apart b c i j (before_free b i p).0 (before_free c j q).0 ne;
    unused = λ b q k. elim (Bool-cases (a == b)) [
      | inl h ↦ rw h refl
      | inr h ↦
          ap (λ f. f k) (at-other l.pc a b (λ _. idle) h)
          ∙ v.unused b (sym (at-other l.arcs a b none h) ∙ q) k
    ];
  }
