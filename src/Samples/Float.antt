-- ===== src/Samples/Float.antt =====
-- The arithmetic of the type `float`, of the compiler and the processor: a parameter of the models
-- of the samples.
use step.Common.{ℕ, Bool}

pub record Float (F : Type 0) : Type 0 where
  -- The literal with the digits `n` and `k` decimal places, as `1.0F` for 10 and 1.
  pub literal : ℕ → ℕ → F
  pub add : F → F → F
  pub sub : F → F → F
  pub mul : F → F → F
  pub div : F → F → F
  pub neg : F → F
  -- `x < y` and `x <= y`
  pub lt : F → F → Bool
  pub le : F → F → Bool
