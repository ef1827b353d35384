-- ===== src/Prelude/Results.antt =====
-- Go's `(value, error)` results.
use mathlib.Core.Path.{◌≡◌, refl}
use mathlib.Core.Bool.{Bool, true, false}

pub data Result (E : Type 0) (A : Type 0) : Type 0 where
  ok : A → Result E A
  err : E → Result E A

infixl 5 ◌>>=◌ ◌>>◌
abbrev pub ◌>>=◌ : {E A B : Type 0} → Result E A → (A → Result E B) → Result E B
err failure >>= next = err failure
ok value >>= next = next value

abbrev pub ◌>>◌ : {E B : Type 0} → Result E (Unit {0}) → Result E B → Result E B
test >> rest = test >>= λ u. rest

-- `if !c { return err }`.
abbrev pub require : {E : Type 0} → Bool → E → Result E (Unit {0})
require true failure = ok tt
require false failure = err failure

-- A chain that succeeds has succeeded at both links.
pub >>=-eq-ok :
    {E A B : Type 0} {result : B} (first : Result E A) (next : A → Result E B)
    (h : (first >>= next) ≡ ok result)
    → (value : A) × (first ≡ ok value) × (next value ≡ ok result)
>>=-eq-ok (err failure) next h = cc
>>=-eq-ok (ok value) next h = (value, refl, h)

pub require-eq-ok :
    {E : Type 0} (test : Bool) (failure : E) → require test failure ≡ ok tt → test ≡ true
require-eq-ok false failure h = cc
require-eq-ok true failure h = refl

pub ok_inj : {E A : Type 0} (x y : A) → Path (Result E A) (ok x) (ok y) → x ≡ y
ok_inj x y h = cc
