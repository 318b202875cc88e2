-- ===== src/Action.antt =====
-- Methods that change an object and may fail: the object comes back beside the error too.
use myna_card.Prelude.{◌≡◌, refl, ap, ◌⊎◌, inl, inr}
use myna_card.Error.{Error, Result, ok, err, stuck}

abbrev pub Action {ℓ} : Type 0 → Type ℓ → Type ℓ
Action S A = S → Result A × S

module _ {ℓ} {S : Type 0} {A : Type ℓ} where
  abbrev pub pure : A → Action S A
  pure a s = (ok a, s)

  abbrev pub raise : Error → Action S A
  raise e s = (err e, s)

  -- The model's fuel ran out.
  abbrev pub exhausted : Action S A
  exhausted s = (stuck, s)

  -- The program panicked: no value and no error comes back.
  abbrev pub panicked : Action S A
  panicked s = (stuck, s)

  abbrev pub lift : Result A → Action S A
  lift r s = (r, s)

module _ {ℓ κ} {S : Type 0} {A : Type ℓ} {B : Type κ} where
  -- `match result { .. }`: the handler sees the error too.
  abbrev pub attempt : Action S A → (Result A → Action S B) → Action S B
  attempt m k s = k (m s).0 (m s).1

  abbrev pub continue : (A → Action S B) → Result A → Action S B
  continue f (ok a) = f a
  continue f (err e) = raise e
  continue f stuck = exhausted

  -- `?`
  infixl 5 ◌>>=◌ ◌>>◌
  abbrev pub ◌>>=◌ : Action S A → (A → Action S B) → Action S B
  m >>= f = attempt m (continue f)

  abbrev pub ◌>>◌ : Action S A → Action S B → Action S B
  m >> k = m >>= λ _. k

-- To split on the outcome of a run and keep the equation.
pub run_cases {ℓ} :
    {S : Type 0} {A : Type ℓ} (p : Result A × S)
    → ((a : A) × (s : S) × (p ≡ (ok a, s)))
      ⊎ (((e : Error) × (s : S) × (p ≡ (err e, s))) ⊎ ((s : S) × (p ≡ (stuck, s))))
run_cases (ok a, s) = inl (a, s, refl)
run_cases (err e, s) = inr (inl (e, s, refl))
run_cases (stuck, s) = inr (inr (s, refl))

-- A chain that succeeds has a first step that does.
pub step-eq-ok :
    {S A B : Type 0} (m : Action S A) (f : A → Action S B) (s : S) {b : B} {last : S}
    → (m >>= f) s ≡ (ok b, last)
    → (a : A) × (t : S) × (m s ≡ (ok a, t)) × (f a t ≡ (ok b, last))
step-eq-ok m f s h = went_on (m s) f h
  where
    went_on :
        {S A B : Type 0} (p : Result A × S) (f : A → Action S B) {b : B} {last : S}
        → continue f p.0 p.1 ≡ (ok b, last)
        → (a : A) × (t : S) × (p ≡ (ok a, t)) × (f a t ≡ (ok b, last))
    went_on (ok a, t) f h = (a, t, refl, h)
    went_on (err e, t) f h = cc
    went_on (stuck, t) f h = cc

-- A step that succeeds goes on with what it leaves.
pub step-ok :
    {S A B : Type 0} (m : Action S A) (f : A → Action S B) (s t : S) (a : A)
    → m s ≡ (ok a, t)
    → (m >>= f) s ≡ f a t
step-ok m f s t a h = ap (λ p. continue f p.0 p.1) h
