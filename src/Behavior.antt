-- ===== src/Behavior.antt =====
-- internal/behavior: how a virtual user acts as a human would. The random source is an interface that
-- the code draws from in a fixed order; `R` is its state.
pub mod Dist
pub mod Mix
pub mod Burst
pub mod Shaper
pub mod Fingerprint
pub mod Selector
pub mod Session
use phantom_traffic.Prelude.{ℕ, Bool}

-- rng.Rand: a draw returns the next state.
pub record Rand (R F : Type 0) : Type 0 where
  pub float64 : R → F × R
  pub norm_float64 : R → F × R
  pub exp_float64 : R → F × R
  pub int_n : ℕ → R → ℕ × R
  -- the source that is split off, and the one that remains
  pub split : R → R × R

-- Of package math.
pub record Math (F : Type 0) : Type 0 where
  pub exp : F → F
  pub is_nan : F → Bool
  pub is_inf : F → Bool
