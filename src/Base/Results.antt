-- ===== src/Base/Results.antt =====
-- `Result<A, E>`.
pub data Result {ℓ} (A E : Type ℓ) : Type ℓ where
  ok : A → Result A E
  err : E → Result A E
