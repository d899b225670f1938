-- ===== src/Prelude/Results.antt =====
-- Python calls that may raise: `Result` for code without state, `Exec` for methods that mutate an
-- object. What was written before a raise stays written, so `Exec` returns the state with an error.
use mathlib.Core.Path.{◌≡◌, refl, ap}
use mathlib.Core.Logic.{◌⊎◌, inl, inr}
use mathlib.Core.Bool.{Bool, true, false}
use mathlib.Core.Option.{Option, none, some}

pub data Result {ℓ} (E A : Type ℓ) : Type ℓ where
  ok : A → Result E A
  err : E → Result E A

abbrev pub Exec {ℓ} : Type ℓ → Type ℓ → Type ℓ → Type ℓ
Exec E S A = S → Result E A × S

module _ {ℓ} {E S A : Type ℓ} where
  abbrev pub pure : A → Exec E S A
  pure a s = (ok a, s)

  abbrev pub raise : E → Exec E S A
  raise e s = (err e, s)

  abbrev pub lift : Result E A → Exec E S A
  lift r s = (r, s)

  abbrev pub gets : (S → A) → Exec E S A
  gets f s = (ok (f s), s)

infixl 5 ◌>>=◌ ◌>>◌
abbrev pub ◌>>=◌ {ℓ} : {E S A B : Type ℓ} → Exec E S A → (A → Exec E S B) → Exec E S B
◌>>=◌ m f s = let (r, s') = m s in elim r [ ok a ↦ f a s' | err e ↦ (err e, s') ]

abbrev pub ◌>>◌ {ℓ} : {E S A B : Type ℓ} → Exec E S A → Exec E S B → Exec E S B
m >> k = m >>= λ _. k

module _ {E S : Type 0} where
  abbrev pub modify : (S → S) → Exec E S (Unit {0})
  modify f s = (ok tt, f s)

  abbrev pub raise_if : Bool → E → Exec E S (Unit {0})
  raise_if true e s = (err e, s)
  raise_if false e s = (ok tt, s)

abbrev pub or_raise {ℓ} : {E S A : Type ℓ} → Option A → E → Exec E S A
or_raise none e s = (err e, s)
or_raise (some a) e s = (ok a, s)

-- Sequencing of calls without state.
abbrev pub and_then {ℓ} : {E A B : Type ℓ} → Result E A → (A → Result E B) → Result E B
and_then (ok a) f = f a
and_then (err e) f = err e

abbrev pub check : {E : Type 0} → Bool → E → Result E (Unit {0})
check true e = err e
check false e = ok tt

-- A step whose outcome is known.
module _ {ℓ} {E S A B : Type ℓ} (m : Exec E S A) (f : A → Exec E S B) (s : S) {s' : S} where
  pub bind_ok : {a : A} → m s ≡ (ok a, s') → (m >>= f) s ≡ f a s'
  bind_ok h = ap (λ o. elim o.0 [ ok a ↦ f a o.1 | err e ↦ (err e, o.1) ]) h

  pub bind_err : {e : E} → m s ≡ (err e, s') → (m >>= f) s ≡ (err e, s')
  bind_err h = ap (λ o. elim o.0 [ ok a ↦ f a o.1 | err e ↦ (err e, o.1) ]) h

pub Result-cases {ℓ} :
    {E A : Type ℓ} (r : Result E A) → ((a : A) × (r ≡ ok a)) ⊎ ((e : E) × (r ≡ err e))
Result-cases (ok a) = inl (a, refl)
Result-cases (err e) = inr (e, refl)

-- Both steps of a sequence that returned.
pub and_then_parts {ℓ} :
    {E A B : Type ℓ} (r : Result E A) (f : A → Result E B) {b : B}
    → and_then r f ≡ ok b
    → (a : A) × (r ≡ ok a) × (f a ≡ ok b)
and_then_parts (ok a) f e = (a, refl, e)
and_then_parts (err x) f e = cc (e)
