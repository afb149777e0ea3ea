-- ===== src/Base/Outcome.antt =====
-- The answers of a routine over raw memory: a value, the null pointer or `false` by which the
-- routine refuses its input, or a fault, which is a read outside the object that a pointer is into.

pub data Outcome {ℓ} (A : Type ℓ) : Type ℓ where
  done : A → Outcome A
  refused : Outcome A
  fault : Outcome A

infixl 5 ◌>>=◌
abbrev pub ◌>>=◌ {ℓ κ} : {A : Type ℓ} {B : Type κ} → Outcome A → (A → Outcome B) → Outcome B
done a >>= f = f a
refused >>= f = refused
fault >>= f = fault
