-- ===== src/Base/Results.antt =====
-- What a call that may raise hands back.

pub data Result {ℓ κ} (E : Type κ) (A : Type ℓ) : Type (ℓ ⊔ κ) where
  ok : A → Result E A
  err : E → Result E A

-- Calls in a row: the first that raises ends them. A `do` block reads these operators.
infixl 5 ◌>>=◌
abbrev pub ◌>>=◌ {ℓ κ μ} :
    {E : Type κ} {A : Type ℓ} {B : Type μ} → Result E A → (A → Result E B) → Result E B
ok a >>= f = f a
err e >>= f = err e

-- What holds of the value that a call returns, or of what it raises.
abbrev pub Outcome {ℓ κ μ} :
    {E : Type κ} {A : Type ℓ} → (A → Type μ) → (E → Type μ) → Result E A → Type μ
Outcome P Q (ok a) = P a
Outcome P Q (err e) = Q e

pub >>=-Outcome {ℓ κ μ ν} :
    {E : Type κ} {A : Type ℓ} {B : Type ν} (P : A → Type μ) (R : B → Type μ) (Q : E → Type μ)
    (r : Result E A) (k : A → Result E B)
    → Outcome P Q r
    → ((a : A) → P a → Outcome R Q (k a))
    → Outcome R Q (r >>= k)
>>=-Outcome P R Q (ok a) k h f = f a h
>>=-Outcome P R Q (err e) k h f = h
