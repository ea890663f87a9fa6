-- ===== src/Prelude/Raises.antt =====
-- What a Python call gives: the value that it returns, or the exception that it raises.
use talisman_v.Prelude.{List, [], ◌∷◌}

pub data Raises {ℓ κ} (E : Type κ) (A : Type ℓ) : Type (ℓ ⊔ κ) where
  returns : A → Raises E A
  raises : E → Raises E A

infixl 5 ◌>>=◌
abbrev pub ◌>>=◌ {ℓ κ μ} :
    {E : Type κ} {A : Type ℓ} {B : Type μ} → Raises E A → (A → Raises E B) → Raises E B
returns a >>= f = f a
raises e >>= f = raises e

-- A comprehension whose element may raise: the first exception ends it.
abbrev pub each {ℓ κ μ} :
    {E : Type κ} {A : Type ℓ} {B : Type μ} → (A → Raises E B) → List A → Raises E (List B)
each f [] = returns []
each f (x ∷ xs) = do y ← f x; ys ← each f xs; returns (y ∷ ys)
