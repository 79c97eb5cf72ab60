-- ===== src/Speculative/Floats.antt =====
-- What src/speculative.rs uses of `f64`: an argument of the model, with no law assumed of it.
use inferq.Prelude.{ℕ, Bool}

pub record FloatOps : Type 1 where
  pub Float : Type 0
  -- The literal `m / 10 ^ k`.
  pub literal : ℕ → ℕ → Float
  -- `n as f64`.
  pub of_usize : ℕ → Float
  pub add : Float → Float → Float
  pub sub : Float → Float → Float
  pub mul : Float → Float → Float
  pub div : Float → Float → Float
  -- `a < b` and `a >= b`.
  pub lt : Float → Float → Bool
  pub ge : Float → Float → Bool
