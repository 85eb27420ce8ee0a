-- ===== src/Prelude/Result.antt =====
-- Go's (value, error) pairs as a sum, with the bind that `if err != nil { return err }` spells.
use mathlib.Core.Path.{◌≡◌, refl}
use mathlib.Core.Logic.{◌⊎◌, inl, inr}

pub data Result {ℓ} (E : Type 0) (A : Type ℓ) : Type ℓ where
  ok : A → Result E A
  err : E → Result E A

infixl 5 ◌>>=◌
abbrev pub ◌>>=◌ {ℓ κ} :
    {E : Type 0} {A : Type ℓ} {B : Type κ} → Result E A → (A → Result E B) → Result E B
ok a >>= f = f a
err e >>= f = err e

-- A call that was followed by another, which succeeded, has succeeded itself.
pub between {ℓ κ} :
    {E : Type 0} {A : Type ℓ} {B : Type κ} (call : Result E A) (next : A → Result E B) {last : B}
    → (call >>= next) ≡ ok last
    → (got : A) × (next got ≡ ok last) × (call ≡ ok got)
between (err e) next succeeds = cc
between (ok got) next succeeds = (got, succeeds, refl)

pub Result-cases {ℓ} :
    {E : Type 0} {A : Type ℓ} (r : Result E A) → ((e : E) × (r ≡ err e)) ⊎ ((a : A) × (r ≡ ok a))
Result-cases (err e) = inl (e, refl)
Result-cases (ok a) = inr (a, refl)
