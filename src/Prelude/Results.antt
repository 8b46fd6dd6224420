-- ===== src/Prelude/Results.antt =====
-- The result of a step that may fail: a value, or a thrown error or rejected promise.

pub data Outcome {ℓ} (E : Type ℓ) (A : Type ℓ) : Type ℓ where
  ok : A → Outcome E A
  err : E → Outcome E A

infixl 5 ◌>>=◌
abbrev pub ◌>>=◌ {ℓ} : {E A B : Type ℓ} → Outcome E A → (A → Outcome E B) → Outcome E B
ok a >>= f = f a
err e >>= f = err e
