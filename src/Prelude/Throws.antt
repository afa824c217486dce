-- ===== src/Prelude/Throws.antt =====
-- The outcome of code that may throw: a value, or the exception that was thrown.
use mathlib.Core.Path.{◌≡◌, refl}

pub data Outcome {ℓ} (E A : Type ℓ) : Type ℓ where
  throw : E → Outcome E A
  ok : A → Outcome E A

infixl 5 ◌>>=◌
abbrev pub ◌>>=◌ {ℓ} : {E A B : Type ℓ} → Outcome E A → (A → Outcome E B) → Outcome E B
throw e >>= next = throw e
ok a >>= next = next a

-- A sequence that returned: its first part returned a value, and its second part went on with it.
pub bind-returned {ℓ} :
    {E A B : Type ℓ} {result : B} (next : A → Outcome E B) (first : Outcome E A)
    → ok result ≡ (first >>= next)
    → (a : A) × (next a ≡ ok result) × (first ≡ ok a)
bind-returned next (throw e) returned = cc
bind-returned next (ok a) returned = (a, cc returned, refl)
