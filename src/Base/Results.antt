-- ===== src/Base/Results.antt =====
-- Results with an error of the component's own.

pub data Result {ℓ} (E A : Type ℓ) : Type ℓ where
  ok : A → Result E A
  err : E → Result E A
