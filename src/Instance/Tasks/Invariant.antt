-- ===== src/Instance/Tasks/Invariant.antt =====
-- The invariant of the calls on one instance, and that a turn of one keeps it.
use native.Mathlib.Decide.{ℕ_discrete}
use lazyd.Base.{
  ℕ, ◌+◌, ◌<◌, ◌≡◌, ◌≢◌, ◌⊎◌, refl, &&-eq-true, sym, subst, ap, ◌∙◌, inl, inr, none, some, true,
  false, not, ◌||◌, ◌&&◌, [], ◌∷◌, ◌++◌, any, arith, Bool-cases, u64_end,
}
use lazyd.Instance.{InstanceState, Range, overlaps, range_eq, is_busy}
use lazyd.Instance.Ensure.{range_eq_refl}
use lazyd.Instance.Fetch.{Serves}
use lazyd.Instance.Tasks.{Pc, idle, held, put, moved, System}
use lazyd.Instance.Tasks.Facts.{Fact, Fact-stays}
use lazyd.Instance.Tasks.Turns.{Turned}
use lazyd.Instance.Tasks.Each.{held-IsAligned}
use lazyd.Instance.Tasks.Flights.{
  is_in, released, is_in-free, is_in-append, is_in-released, overlaps-sym, apart-differ,
  range_eq→eq,
}
use lazyd.Instance.Tasks.Flew.{Flew, keeps, takes, frees}

-- The list of the ranges in flight is just the ranges that the tasks hold, and no two of these
-- overlap.
pub record Inv (blob : ℕ → ℕ) (u : System) : Type 0 where
  pub serves : Serves blob u.shared
  pub facts : (i : ℕ) → Fact blob u.shared (u.pc i)
  pub listed : (i : ℕ) (r : Range) → held (u.pc i) ≡ some r → is_in r u.shared.inst.inflight ≡ true
  pub owned :
      (r : Range) → is_in r u.shared.inst.inflight ≡ true → (i : ℕ) × (held (u.pc i) ≡ some r)
  pub apart :
      (i j : ℕ) (r q : Range)
      → i ≢ j
      → held (u.pc i) ≡ some r
      → held (u.pc j) ≡ some q
      → overlaps r q ≡ false

-- No call is under way.
pub fresh-Inv :
    (blob : ℕ → ℕ) (s : InstanceState) (pcs : ℕ → Pc)
    → Serves blob s
    → s.inst.inflight ≡ []
    → ((k : ℕ) → pcs k ≡ idle)
    → Inv blob (record { shared = s; pc = pcs })
fresh-Inv blob s pcs v none_yet resting = record {
  serves = v;
  facts = λ k. subst (Fact blob s) (sym (resting k)) tt;
  listed = λ k r q. absurd (let e = ap held (resting k) in cc);
  owned = λ r h. absurd (let z = ap (is_in r) none_yet in cc);
  apart = λ j k r q ne hj hk. absurd (let e = ap held (resting j) in cc);
}

put-same : (pcs : ℕ → Pc) (i : ℕ) (pc : Pc) → put pcs i pc i ≡ pc
put-same pcs i pc = ground arith

put-other : (pcs : ℕ → Pc) (i j : ℕ) (pc : Pc) → i ≢ j → put pcs i pc j ≡ pcs j
put-other pcs i j pc ne = ground arith

-- Task `i` takes a turn that ends in `next`.
module _ (blob : ℕ → ℕ) (u : System) (inv : Inv blob u) (i : ℕ) (next : Pc × InstanceState)
    (turned : Turned blob u.shared next.0 next.1) where
  abbrev pcs : ℕ → Pc
  pcs = put u.pc i next.0

  -- A range that is held after the turn, and by whom.
  who :
      (j : ℕ) (r : Range)
      → held (pcs j) ≡ some r
      → ((i ≢ j) × (held (u.pc j) ≡ some r)) ⊎ ((i ≡ j) × (held next.0 ≡ some r))
  who j r q = elim (ℕ_discrete i j) [
    | no ne ↦ inl (ne, sym (ap held (put-other u.pc i j next.0 ne)) ∙ q)
    | yes e ↦
        inr
          (e, sym (ap held (put-same u.pc i next.0)) ∙ subst (λ k. held (pcs k) ≡ some r) (sym e) q)
  ]

  by_other : (j : ℕ) (r : Range) → i ≢ j → held (u.pc j) ≡ some r → held (pcs j) ≡ some r
  by_other j r ne q = ap held (put-other u.pc i j next.0 ne) ∙ q

  by_own : (r : Range) → held next.0 ≡ some r → held (pcs i) ≡ some r
  by_own r q = ap held (put-same u.pc i next.0) ∙ q

  facts_kept : (j : ℕ) → Fact blob next.1 (pcs j)
  facts_kept j = elim (ℕ_discrete i j) [
    | yes e ↦
        subst (λ k. Fact blob next.1 (pcs k)) e
          (subst (Fact blob next.1) (sym (put-same u.pc i next.0)) turned.fact)
    | no ne ↦
        subst (Fact blob next.1) (sym (put-other u.pc i j next.0 ne))
          (Fact-stays blob u.shared next.1 turned.grows (u.pc j) (inv.facts j))
  ]

  fits : (j : ℕ) (r : Range) → held (u.pc j) ≡ some r → r.offset + r.len < u64_end
  fits j r q =
      let a = held-IsAligned blob u.shared inv.serves (u.pc j) r (inv.facts j) q in
      omega (arith, a.within, inv.serves.backed.map.fits, inv.serves.backed.map.unit_pos)

  fits_next : (r : Range) → held next.0 ≡ some r → r.offset + r.len < u64_end
  fits_next r q =
      let a = held-IsAligned blob next.1 turned.serves next.0 r turned.fact q in
      omega (arith, a.within, turned.serves.backed.map.fits, turned.serves.backed.map.unit_pos)

  module _ (same : held next.0 ≡ held (u.pc i))
      (list : next.1.inst.inflight ≡ u.shared.inst.inflight) where
    before_kept : (j : ℕ) (r : Range) → held (pcs j) ≡ some r → held (u.pc j) ≡ some r
    before_kept j r q = elim (who j r q) [
      | inl (ne, h) ↦ h
      | inr (e, h) ↦ subst (λ k. held (u.pc k) ≡ some r) e (sym same ∙ h)
    ]

    owner_kept : (r : Range) (j : ℕ) → held (u.pc j) ≡ some r → held (pcs j) ≡ some r
    owner_kept r j q = elim (ℕ_discrete i j) [
      | no ne ↦ by_other j r ne q
      | yes e ↦
          subst (λ k. held (pcs k) ≡ some r) e
            (by_own r (same ∙ subst (λ k. held (u.pc k) ≡ some r) (sym e) q))
    ]

    Inv-keeps : Inv blob (moved u i next)
    Inv-keeps = record {
      serves = turned.serves;
      facts = facts_kept;
      listed = λ j r q. ap (is_in r) list ∙ inv.listed j r (before_kept j r q);
      owned =
          λ r h. let (j, q) = inv.owned r (sym (ap (is_in r) list) ∙ h) in (j, owner_kept r j q);
      apart = λ j k r q ne hj hk. inv.apart j k r q ne (before_kept j r hj) (before_kept k q hk);
    }

  module _ (range : Range) (free : held (u.pc i) ≡ none) (takes : held next.0 ≡ some range)
      (unused : any (λ item. overlaps item range) u.shared.inst.inflight ≡ false)
      (list : next.1.inst.inflight ≡ u.shared.inst.inflight ++ range ∷ []) where
    in_list :
        (r : Range)
        → is_in r next.1.inst.inflight ≡ (is_in r u.shared.inst.inflight || range_eq r range)
    in_list r = ap (is_in r) list ∙ is_in-append r range u.shared.inst.inflight

    own_range : (r : Range) → held next.0 ≡ some r → r ≡ range
    own_range r q = cc

    apart_taken : (j : ℕ) (r : Range) → held (u.pc j) ≡ some r → overlaps r range ≡ false
    apart_taken j r q = is_in-free r range u.shared.inst.inflight (inv.listed j r q) unused

    Inv-takes : Inv blob (moved u i next)
    Inv-takes = record {
      serves = turned.serves;
      facts = facts_kept;
      listed = λ j r q. elim (who j r q) [
        | inl (ne, h) ↦ in_list r ∙ rw (inv.listed j r h) refl
        | inr (e, h) ↦ let same = own_range r h in in_list r ∙ ground (arith, range_eq_refl r)
      ];
      owned = λ r h. elim (Bool-cases (is_in r u.shared.inst.inflight)) [
        | inl old ↦
            let (j, q) = inv.owned r old in
            (
              j,
              by_other j r
                  (λ e. absurd (let z = subst (λ k. held (u.pc k) ≡ some r) (sym e) q in cc)) q,
            )
        | inr new ↦
            let e = range_eq→eq r range (ground (arith, in_list r)) in
            (i, by_own r (takes ∙ ap some (sym e)))
      ];
      apart = λ j k r q ne hj hk. elim (who j r hj) [
        | inl (nj, bj) ↦ elim (who k q hk) [
          | inl (nk, bk) ↦ inv.apart j k r q ne bj bk
          | inr (ek, bk) ↦
              subst (λ x. overlaps r x ≡ false) (sym (own_range q bk)) (apart_taken j r bj)
        ]
        | inr (ej, bj) ↦ elim (who k q hk) [
          | inl (nk, bk) ↦
              overlaps-sym r q (fits_next r bj) (fits k q bk)
              ∙ subst (λ x. overlaps q x ≡ false) (sym (own_range r bj)) (apart_taken k q bk)
          | inr (ek, bk) ↦ absurd (ne (sym ej ∙ ek))
        ]
      ];
    }

  module _ (range : Range) (frees : held (u.pc i) ≡ some range) (free : held next.0 ≡ none)
      (list : next.1.inst.inflight ≡ released range u.shared.inst.inflight) where
    still_in :
        (r : Range)
        → is_in r next.1.inst.inflight ≡ (is_in r u.shared.inst.inflight && not (range_eq r range))
    still_in r = ap (is_in r) list ∙ is_in-released r range u.shared.inst.inflight

    before_freed : (j : ℕ) (r : Range) → held (pcs j) ≡ some r → (i ≢ j) × (held (u.pc j) ≡ some r)
    before_freed j r q = elim (who j r q) [ inl h ↦ h | inr (e, h) ↦ cc ]

    differ : (j : ℕ) (r : Range) → i ≢ j → held (u.pc j) ≡ some r → range_eq r range ≡ false
    differ j r ne q =
        apart-differ r range
          (held-IsAligned blob u.shared inv.serves (u.pc i) range (inv.facts i) frees).some_bytes
          (fits i range frees) (inv.apart j i r range (λ e. ne (sym e)) q frees)

    not_own : (r : Range) (j : ℕ) → held (u.pc j) ≡ some r → range_eq r range ≡ false → i ≢ j
    not_own r j q other e =
        let own : held (u.pc i) ≡ some r = subst (λ k. held (u.pc k) ≡ some r) (sym e) q in
        let same : r ≡ range = cc in absurd (let z = range_eq_refl r in cc)

    Inv-frees : Inv blob (moved u i next)
    Inv-frees = record {
      serves = turned.serves;
      facts = facts_kept;
      listed = λ j r q.
          let (ne, h) = before_freed j r q in
          still_in r ∙ rw (inv.listed j r h, differ j r ne h) refl;
      owned = λ r h.
          let (old, other) =
            &&-eq-true (is_in r u.shared.inst.inflight) (not (range_eq r range))
              (sym (still_in r) ∙ h) in
          let (j, q) = inv.owned r old in
          (j, by_other j r (not_own r j q (ground (arith, other))) q);
      apart =
          λ j k r q ne hj hk. inv.apart j k r q ne (before_freed j r hj).1 (before_freed k q hk).1;
    }

  pub Inv-moved : Flew u.shared (u.pc i) next → Inv blob (moved u i next)
  unfolding is_busy
  Inv-moved (keeps same list) = Inv-keeps same list
  Inv-moved (takes range free taken unused list) = Inv-takes range free taken unused list
  Inv-moved (frees range held_before free list) = Inv-frees range held_before free list
