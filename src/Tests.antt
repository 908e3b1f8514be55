-- ===== src/Tests.antt =====
-- Runs of the model at concrete inputs: the hypotheses of the theorems hold there.
pub mod Floats
pub mod Lifecycle
pub mod Safety
pub mod Measures
pub mod Workers
pub mod Trail
pub mod Toys
pub mod Traffic
pub mod Runs
