-- ===== src/Exec.antt =====
-- Actions on a state that may fail. What was done before a failure stays done, so the state
-- comes back beside the error too; `?` in the source is the bind.
use lazyd.Base.{◌≡◌, refl, Bool, true, false, ◌⊎◌, inl, inr}
use lazyd.Errors.{Error, Result, ok, err}

abbrev pub Exec {ℓ} : (State Value : Type ℓ) → Type ℓ
Exec State Value = State → Result Value × State

-- How an action goes on from the outcome of the one before it.
abbrev pub continue {ℓ} : {State V W : Type ℓ} → Result V → (V → Exec State W) → Exec State W
continue (err problem) next state = (err problem, state)
continue (ok value) next state = next value state

infixl 5 ◌>>=◌ ◌>>◌
abbrev pub ◌>>=◌ {ℓ} : {State V W : Type ℓ} → Exec State V → (V → Exec State W) → Exec State W
◌>>=◌ action next state = let (outcome, behind) = action state in continue outcome next behind

abbrev pub ◌>>◌ {ℓ} : {State V W : Type ℓ} → Exec State V → Exec State W → Exec State W
action >> next = action >>= λ _. next

-- Actions that leave the state alone
module _ {ℓ} {State Value : Type ℓ} where
  abbrev pub lift : Result Value → Exec State Value
  lift outcome state = (outcome, state)

  abbrev pub pure : Value → Exec State Value
  pure value = lift (ok value)

  abbrev pub fail : Error → Exec State Value
  fail problem = lift (err problem)

  abbrev pub gets : (State → Value) → Exec State Value
  gets part state = (ok (part state), state)

abbrev pub modify : {State : Type 0} → (State → State) → Exec State Unit
modify change state = (ok tt, change state)

-- An action on a part of the state
abbrev pub zoom :
    {State Part V : Type 0} → (State → Part) → (State → Part → State) → Exec Part V → Exec State V
zoom get put action state = let (outcome, part) = action (get state) in (outcome, put state part)

abbrev pub when : {State : Type 0} → Bool → Exec State Unit → Exec State Unit
when true action = action
when false action = pure tt

pub Result-cases {ℓ} :
    {V : Type ℓ} (outcome : Result V)
    → ((value : V) × (outcome ≡ ok value)) ⊎ ((problem : Error) × (outcome ≡ err problem))
Result-cases (ok value) = inl (value, refl)
Result-cases (err problem) = inr (problem, refl)

-- `match m { Ok(a) => …, Err(e) => … }`: the outcome of `m` as a value.
abbrev pub caught : {S A : Type 0} → Exec S A → Exec S (Result A)
caught m s = let (r, s') = m s in (ok r, s')

continue-ok :
    {S A B : Type 0} (r : Result A) (f : A → Exec S B) (s : S) (b : B)
    → (continue r f s).0 ≡ ok b
    → (a : A) × (r ≡ ok a) × ((f a s).0 ≡ ok b)
continue-ok (ok a) f s b h = (a, refl, h)
continue-ok (err e) f s b h = cc

-- A sequence that succeeds: so does each part.
pub bind-ok :
    {S A B : Type 0} (m : Exec S A) (f : A → Exec S B) (s : S) (b : B)
    → ((m >>= f) s).0 ≡ ok b
    → (a : A) × ((m s).0 ≡ ok a) × ((f a (m s).1).0 ≡ ok b)
bind-ok m f s b h = continue-ok (m s).0 f (m s).1 b h

continue-parts :
    {S A B : Type 0} (r : Result A) (f : A → Exec S B) (s : S) (b : B) (t : S)
    → continue r f s ≡ (ok b, t)
    → (a : A) × (r ≡ ok a) × (f a s ≡ (ok b, t))
continue-parts (ok a) f s b t h = (a, refl, h)
continue-parts (err e) f s b t h = cc

-- A sequence that succeeds, in its two parts with the state between them.
pub bind-parts :
    {S A B : Type 0} (m : Exec S A) (f : A → Exec S B) (s : S) (b : B) (t : S)
    → (m >>= f) s ≡ (ok b, t)
    → (a : A) × ((m s).0 ≡ ok a) × (f a (m s).1 ≡ (ok b, t))
bind-parts m f s b t h = continue-parts (m s).0 f (m s).1 b t h
