-- ===== src/Prelude/Results.antt =====
-- `Result<A, E>`: a fallible operation keeps the error as a value.

pub data Result {ℓ κ} (E : Type ℓ) (A : Type κ) : Type (ℓ ⊔ κ) where
  ok : A → Result E A
  err : E → Result E A
