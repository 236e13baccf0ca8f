-- ===== src/Prelude/Results.antt =====
-- `Result<T, E>` with the operations that the source chains it by.
use native.Mathlib.Omega.{arith}
use mathlib.Core.Path.{◌≡◌, refl}
use mathlib.Core.Bool.{Bool, true, false}
use mathlib.Core.Option.{Option, none, some}
use mathlib.Core.Logic.{◌⊎◌, inl, inr}

pub data Result (E : Type 0) (A : Type 0) : Type 0 where
  ok : A → Result E A
  err : E → Result E A

module _ {E : Type 0} where
  -- `e?` in a function whose error type is that of `e`.
  infixl 5 ◌>>=◌ ◌>>◌
  abbrev pub ◌>>=◌ : {A B : Type 0} → Result E A → (A → Result E B) → Result E B
  ok a >>= f = f a
  err e >>= f = err e

  abbrev pub ◌>>◌ : {A B : Type 0} → Result E A → Result E B → Result E B
  m >> k = m >>= λ _. k

  -- An early `return Err(e)` under a test.
  abbrev pub fail_if : Bool → E → Result E Unit
  fail_if true e = err e
  fail_if false e = ok tt

  abbrev pub ok_or : {A : Type 0} → Option A → E → Result E A
  ok_or none e = err e
  ok_or (some a) e = ok a

  abbrev pub is_err : {A : Type 0} → Result E A → Bool
  is_err (ok a) = false
  is_err (err e) = true

  pub Result-cases :
      {A : Type 0} (r : Result E A) → ((a : A) × (r ≡ ok a)) ⊎ ((e : E) × (r ≡ err e))
  Result-cases (ok a) = inl (a, refl)
  Result-cases (err e) = inr (e, refl)

abbrev pub map_err : {E F A : Type 0} → (E → F) → Result E A → Result F A
map_err f (ok a) = ok a
map_err f (err e) = err (f e)

abbrev pub map_ok : {E A B : Type 0} → (A → B) → Result E A → Result E B
map_ok f (ok a) = ok (f a)
map_ok f (err e) = err e

-- A chain that succeeds, taken apart.
pub >>=-eq-ok :
    {E A B : Type 0} (first : Result E A) (next : A → Result E B) {value : B}
    → (first >>= next) ≡ ok value
    → (passed : A) × (first ≡ ok passed) × (next passed ≡ ok value)
>>=-eq-ok (err e) next h = cc
>>=-eq-ok (ok passed) next h = (passed, refl, h)

-- A value read out of a result that is known.
abbrev pub ok_value : {E A : Type 0} → A → Result E A → A
ok_value a (ok b) = b
ok_value a (err e) = a

pub ok_or-ok : {E A : Type 0} (e : E) {a : A} (o : Option A) → ok_or o e ≡ ok a → o ≡ some a
ok_or-ok e none h = absurd (ground arith)
ok_or-ok e (some b) h = ground arith

pub fail_if-ok : {E : Type 0} (e : E) {u : Unit} (b : Bool) → fail_if b e ≡ ok u → b ≡ false
fail_if-ok e true h = absurd (ground arith)
fail_if-ok e false h = refl
