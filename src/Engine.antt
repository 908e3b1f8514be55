-- ===== src/Engine.antt =====
-- internal/engine: the run's components, each in a module of its own.
pub mod Gate
pub mod State
pub mod Lifecycle
pub mod Semaphore
pub mod Selector
pub mod Histogram
pub mod Stats
pub mod Publisher
pub mod Pacing
pub mod Worker
pub mod Weights
pub mod Naming
pub mod Patch
pub mod Scheduler
pub mod Supervisor
