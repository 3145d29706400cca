-- ===== src/Base/Results.antt =====
-- A Go function that returns a value or an error. Errors are the sentinels that `errors.Is` sees.
use mathlib.Core.Bool.{Bool, true, false}
use mathlib.Core.Path.{◌≡◌, refl, ap, ◌∙◌}
use mathlib.Core.Logic.{◌⊎◌, inl, inr}

pub data Result {ℓ} (E A : Type ℓ) : Type ℓ where
  ok : A → Result E A
  err : E → Result E A

infixl 5 ◌>>=◌ ◌>>◌
abbrev pub ◌>>=◌ {ℓ} : {E A B : Type ℓ} → Result E A → (A → Result E B) → Result E B
ok x >>= next = next x
err why >>= next = err why

abbrev pub ◌>>◌ {ℓ} : {E : Type ℓ} {B : Type ℓ} → Result E Unit → Result E B → Result E B
first >> rest = first >>= λ _. rest

-- `if !b { return err }`
abbrev pub require {ℓ} : {E : Type ℓ} → Bool → E → Result E Unit
require true e = ok tt
require false e = err e

-- Inversion of a sequence that succeeds.
pub >>=-eq-ok {ℓ} :
    {E A B : Type ℓ} (m : Result E A) (f : A → Result E B) {b : B}
    → (m >>= f) ≡ ok b
    → (a : A) × (m ≡ ok a) × (f a ≡ ok b)
>>=-eq-ok (ok x) next is_ok = (x, refl, is_ok)
>>=-eq-ok (err why) next is_ok = cc

-- The error of another package, wrapped.
abbrev pub wrap_err {ℓ} : {E F A : Type ℓ} → (E → F) → Result E A → Result F A
wrap_err f (ok a) = ok a
wrap_err f (err e) = err (f e)

pub Result-cases {ℓ} :
    {E A : Type ℓ} (r : Result E A) → ((a : A) × (r ≡ ok a)) ⊎ ((e : E) × (r ≡ err e))
Result-cases (ok a) = inl (a, refl)
Result-cases (err e) = inr (e, refl)

pub ok-injective {ℓ} : {E A : Type ℓ} {a b : A} → Path (Result E A) (ok a) (ok b) → a ≡ b
ok-injective h = cc

pub require-holds {ℓ} : {E : Type ℓ} (b : Bool) (e : E) {u : Unit} → require b e ≡ ok u → b ≡ true
require-holds true e h = refl
require-holds false e h = cc

pub require-true {ℓ} : {E : Type ℓ} (b : Bool) (e : E) → b ≡ true → require b e ≡ ok tt
require-true b e h = ap (λ c. require c e) h

-- A sequence whose steps succeed.
pub >>=-ok {ℓ} :
    {E A B : Type ℓ} (m : Result E A) (f : A → Result E B) {a : A} {b : B}
    → m ≡ ok a
    → f a ≡ ok b
    → (m >>= f) ≡ ok b
>>=-ok m f h k = ap (λ r. r >>= f) h ∙ k
