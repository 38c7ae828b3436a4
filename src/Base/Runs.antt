-- ===== src/Base/Runs.antt =====
-- What running a Go function comes to.

-- It returns, or it panics.
pub data Run {ℓ} (A : Type ℓ) : Type ℓ where
  returned : A → Run A
  panicked : Run A
