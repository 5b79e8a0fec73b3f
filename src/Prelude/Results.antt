-- ===== src/Prelude/Results.antt =====
-- Values of code that raises: the result, or the exception.
use mathlib.Core.Bool.{Bool, true, false}
use mathlib.Core.Path.{◌≡◌, refl}
use mathlib.Core.Logic.{◌⊎◌, inl, inr}

pub data Result {ℓ} (E A : Type ℓ) : Type ℓ where
  err : (raised : E) → Result E A
  ok : (value : A) → Result E A

infixl 5 ◌>>=◌ ◌>>◌
abbrev pub ◌>>=◌ {ℓ} : {E A B : Type ℓ} → Result E A → (A → Result E B) → Result E B
err raised >>= next = err raised
ok value >>= next = next value

abbrev pub ◌>>◌ {ℓ} : {E A B : Type ℓ} → Result E A → Result E B → Result E B
first >> second = first >>= λ _. second

-- `if not test: raise e`
abbrev pub guard : {E : Type 0} → Bool → E → Result E (Unit {0})
guard false raised = err raised
guard true raised = ok tt

-- A chain of steps succeeds only if its first step does.
pub >>=-eq-ok {ℓ} :
    {E A B : Type ℓ} (first : Result E A) (next : A → Result E B) {y : B}
    → (first >>= next) ≡ ok y
    → (x : A) × (first ≡ ok x) × (next x ≡ ok y)
>>=-eq-ok (err raised) next p = cc p
>>=-eq-ok (ok x) next p = (x, refl, p)

pub Result-cases {ℓ} :
    {E A : Type ℓ} (r : Result E A) → ((a : A) × (r ≡ ok a)) ⊎ ((e : E) × (r ≡ err e))
Result-cases (ok a) = inl (a, refl)
Result-cases (err e) = inr (e, refl)

-- What is known once a test has not raised.
pub after_guard :
    {E A : Type 0} (b : Bool) (e : E) (next : Result E A) {y : A}
    → (guard b e >> next) ≡ ok y
    → (b ≡ true) × (next ≡ ok y)
after_guard true e next h = (refl, h)
after_guard false e next h = cc h
