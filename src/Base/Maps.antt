-- ===== src/Base/Maps.antt =====
-- A `HashMap` as an association list, with the test that its keys are compared by.
use mathlib.Core.Path.{◌≡◌, refl, sym, subst}
use mathlib.Core.Logic.{inl, inr}
use mathlib.Core.Bool.{Bool, true, false}
use mathlib.Core.Option.{Option, none, some}
use mathlib.Core.List.{List, [], ◌∷◌}
use lazyd.Base.Tests.{if◌then◌else◌, Bool-cases}

abbrev pub Map {ℓ} : Type ℓ → Type ℓ → Type ℓ
Map K V = List (K × V)

pub record EqLaws {ℓ} {K : Type ℓ} (eq : K → K → Bool) : Type ℓ where
  pub same : (k : K) → eq k k ≡ true
  pub sound : (j k : K) → eq j k ≡ true → j ≡ k

module _ {ℓ} {K V : Type ℓ} (eq : K → K → Bool) where
  unfoldable pub lookup : K → Map K V → Option V
  lookup k [] = none
  lookup k ((j, v) ∷ m) = let rest = lookup k m in if eq j k then some v else rest

  unfoldable pub remove : K → Map K V → Map K V
  remove k [] = []
  remove k ((j, v) ∷ m) = let rest = remove k m in if eq j k then rest else (j, v) ∷ rest

  unfoldable pub insert : K → V → Map K V → Map K V
  insert k v m = (k, v) ∷ remove k m

  module _ (laws : EqLaws eq) where
    pub lookup-remove_same : (k : K) (m : Map K V) → lookup k (remove k m) ≡ none
    unfolding lookup remove
    lookup-remove_same k [] = refl
    lookup-remove_same k ((j, v) ∷ m) = elim (Bool-cases (eq j k)) [
      | inl h ↦ rw h (lookup-remove_same k m)
      | inr h ↦ rw (h, h) (lookup-remove_same k m)
    ]

    pub lookup-remove_other :
        (k i : K) (m : Map K V) → eq k i ≡ false → lookup i (remove k m) ≡ lookup i m
    unfolding lookup remove
    lookup-remove_other k i [] h = refl
    lookup-remove_other k i ((j, v) ∷ m) h = elim (Bool-cases (eq j k)) [
      | inl q ↦
          let other : eq j i ≡ false = subst (λ x. eq x i ≡ false) (sym (laws.sound j k q)) h in
          rw (q, other) (lookup-remove_other k i m h)
      | inr q ↦ rw (q, lookup-remove_other k i m h) refl
    ]

    pub lookup-insert_same : (k : K) (v : V) (m : Map K V) → lookup k (insert k v m) ≡ some v
    unfolding lookup insert
    lookup-insert_same k v m = rw (laws.same k) refl

    pub lookup-insert_other :
        (k i : K) (v : V) (m : Map K V) → eq k i ≡ false → lookup i (insert k v m) ≡ lookup i m
    unfolding lookup insert
    lookup-insert_other k i v m h = rw h (lookup-remove_other k i m h)
