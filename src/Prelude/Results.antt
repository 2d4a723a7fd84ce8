-- ===== src/Prelude/Results.antt =====
-- Go's `(value, error)` results: a value, or an error of the component's own type.
use mathlib.Core.Path.{◌≡◌, refl}
use native.Mathlib.Omega.{arith}
use mathlib.Core.Logic.{◌⊎◌, inl, inr}

pub data Result (E A : Type 0) : Type 0 where
  ok : A → Result E A
  err : E → Result E A

infixl 5 ◌>>=◌ ◌>>◌
abbrev pub ◌>>=◌ : {E A B : Type 0} → Result E A → (A → Result E B) → Result E B
ok v >>= next = next v
err failure >>= next = err failure

abbrev pub ◌>>◌ : {E B : Type 0} → Result E (Unit {0}) → Result E B → Result E B
first >> rest = first >>= λ _. rest

-- `fmt.Errorf("...: %w", err)`: the caller's error around the callee's.
abbrev pub wrap_err : {E F A : Type 0} → (E → F) → Result E A → Result F A
wrap_err f (ok a) = ok a
wrap_err f (err e) = err (f e)

pub Result-cases :
    {E A : Type 0} (r : Result E A) → ((a : A) × (r ≡ ok a)) ⊎ ((e : E) × (r ≡ err e))
Result-cases (ok a) = inl (a, refl)
Result-cases (err e) = inr (e, refl)

pub wrapped_ok :
    {E F A : Type 0} (f : E → F) (r : Result E A) {a : A} → wrap_err f r ≡ ok a → r ≡ ok a
wrapped_ok f r h = ground arith

-- Inversion of a bind that succeeds.
pub >>=-eq-ok :
    {E A B : Type 0} (r : Result E A) (next : A → Result E B) {out : B}
    → (r >>= next) ≡ ok out
    → (v : A) × (r ≡ ok v) × (next v ≡ ok out)
>>=-eq-ok (ok v) next done = (v, refl, done)
>>=-eq-ok (err failure) next done = cc
