-- ===== src/Common/Results.antt =====
-- Python's exceptions as values: `err e` is a raised exception.
use mathlib.Core.Path.{◌≡◌, refl}
use mathlib.Core.Logic.{◌⊎◌, inl, inr}
use mathlib.Core.Bool.{Bool, true, false}
use native.Mathlib.Omega.{arith}

pub data Result (E A : Type 0) : Type 0 where
  ok : A → Result E A
  err : E → Result E A

infixl 5 ◌>>=◌ ◌>>◌
abbrev pub ◌>>=◌ : {E A B : Type 0} → Result E A → (A → Result E B) → Result E B
ok a >>= f = f a
err e >>= f = err e

abbrev pub ◌>>◌ : {E A B : Type 0} → Result E A → Result E B → Result E B
m >> k = m >>= λ _. k

-- `if test: raise e`
abbrev pub raise_if : {E : Type 0} → Bool → E → Result E (Unit {0})
raise_if true e = err e
raise_if false e = ok tt

-- `try: ...; return True; except ...: return False`
abbrev pub succeeds : {E A : Type 0} → Result E A → Bool
succeeds (ok a) = true
succeeds (err e) = false

pub Result-cases :
    {E A : Type 0} (r : Result E A) → ((a : A) × (r ≡ ok a)) ⊎ ((e : E) × (r ≡ err e))
Result-cases (ok a) = inl (a, refl)
Result-cases (err e) = inr (e, refl)

-- A chain of statements that ends without an exception: its first one has, and so has the rest.
pub then_ok :
    {E A B : Type 0} (m : Result E A) (k : A → Result E B) (b : B)
    → (m >>= k) ≡ ok b
    → (a : A) × (m ≡ ok a) × (k a ≡ ok b)
then_ok (ok a) k b h = (a, refl, h)
then_ok (err e) k b h = absurd (ground arith)

pub raise_if_ok :
    {E : Type 0} (test : Bool) (e : E) (t : Unit {0}) → raise_if test e ≡ ok t → test ≡ false
raise_if_ok false e t h = refl
raise_if_ok true e t h = absurd (ground arith)

pub ok_inj : {E A : Type 0} (a b : A) → (e : Result E A) → e ≡ ok a → e ≡ ok b → a ≡ b
ok_inj a b (ok c) h k = ground arith
ok_inj a b (err x) h k = absurd (ground arith)
