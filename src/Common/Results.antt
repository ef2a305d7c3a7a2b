-- ===== src/Common/Results.antt =====
-- Go's (value, error) pair: a call returns a value or an error.
use mathlib.Core.Path.{◌≡◌, refl}
use mathlib.Core.Bool.{Bool, true, false}
use mathlib.Core.Option.{Option, none, some}
use mathlib.Core.Logic.{◌⊎◌, inl, inr}

pub data Result {ℓ} (E A : Type ℓ) : Type ℓ where
  ok : A → Result E A
  err : E → Result E A

-- `if err != nil { return err }`, then the rest with the value
infixl 5 ◌>>=◌
abbrev pub ◌>>=◌ {ℓ} : {E A B : Type ℓ} (first : Result E A) (rest : A → Result E B) → Result E B
err e >>= rest = err e
ok value >>= rest = rest value

-- `if test { return e }`
abbrev pub fail_if {ℓ} : {E : Type ℓ} → Bool → E → Result E (Unit {ℓ})
fail_if true e = err e
fail_if false e = ok tt

-- `if err := f(); err != nil { return err }`
abbrev pub check {ℓ} : {E : Type ℓ} → Option E → Result E (Unit {ℓ})
check none = ok tt
check (some e) = err e

-- the same without a value
infixl 5 ◌>>◌
abbrev pub ◌>>◌ {ℓ} : {E B : Type ℓ} (first : Result E (Unit {ℓ})) (rest : Result E B) → Result E B
err e >> rest = err e
ok _ >> rest = rest

pub Result-cases {ℓ} :
    {E A : Type ℓ} (r : Result E A) → ((a : A) × (r ≡ ok a)) ⊎ ((e : E) × (r ≡ err e))
Result-cases (err e) = inr (e, refl)
Result-cases (ok a) = inl (a, refl)

-- a sequence that succeeded: what its first part answered
pub >>=-eq-ok {ℓ} :
    {E A B : Type ℓ} (first : Result E A) (rest : A → Result E B) {answer : B}
    → (first >>= rest) ≡ ok answer
    → (value : A) × (first ≡ ok value) × (rest value ≡ ok answer)
>>=-eq-ok (err e) rest h = cc
>>=-eq-ok (ok value) rest h = (value, refl, h)
