-- ===== src/Prelude/Results.antt =====
-- What a Go function that returns an error returns: the error, or its other results.
use mathlib.Core.Path.{◌≡◌, refl}
use mathlib.Core.Logic.{◌⊎◌, inl, inr}
use mathlib.Core.Bool.{Bool, true, false}
use mathlib.Core.Option.{some}

pub data Result {ℓ} (E : Type 0) (A : Type ℓ) : Type ℓ where
  err : E → Result E A
  ok : A → Result E A

-- if cond { return error }
abbrev pub refuse_if : {E : Type 0} → Bool → E → Result E (Unit {0})
refuse_if false e = ok tt
refuse_if true e = err e

module _ {ℓ} {E : Type 0} {B : Type ℓ} where
  -- if err != nil { return err }
  infixl 5 ◌>>=◌ ◌>>◌
  abbrev pub ◌>>=◌ {κ} : {A : Type κ} → Result E A → (A → Result E B) → Result E B
  err e >>= next = err e
  ok x >>= next = next x

  abbrev pub ◌>>◌ : Result E (Unit {0}) → Result E B → Result E B
  step >> rest = step >>= λ done. rest

  -- A step and the rest of a function that returns `b` have both succeeded.
  pub >>=-eq-ok {κ} :
      {A : Type κ} (step : Result E A) (next : A → Result E B) {b : B}
      → (step >>= next) ≡ ok b
      → (x : A) × (step ≡ ok x) × (next x ≡ ok b)
  >>=-eq-ok (err e) next done = cc
  >>=-eq-ok (ok x) next done = (x, refl, done)

pub Result-cases {ℓ} :
    {E : Type 0} {A : Type ℓ} (r : Result E A) → ((a : A) × (r ≡ ok a)) ⊎ ((e : E) × (r ≡ err e))
Result-cases (ok a) = inl (a, refl)
Result-cases (err e) = inr (e, refl)

-- The parts of a returned pair.
pub ok_pair {ℓ κ} :
    {E : Type 0} {A : Type ℓ} {B : Type κ} {a a' : A} {b b' : B}
    → ◌≡◌ {A = Result E (A × B)} (ok (a, b)) (ok (a', b'))
    → (a' ≡ a) × (b' ≡ b)
ok_pair e = (cc e, cc e)

pub some_eq {ℓ} : {A : Type ℓ} {a b : A} → some a ≡ some b → a ≡ b
some_eq e = cc e

pub ok_eq {ℓ} : {E : Type 0} {A : Type ℓ} {a b : A} → ◌≡◌ {A = Result E A} (ok a) (ok b) → a ≡ b
ok_eq e = cc e
