-- ===== src/Safety.antt =====
-- internal/safety: the circuit breaker, the tripwire, the caps and the limiter.
pub mod Breaker
pub mod Tripwire
pub mod Caps
pub mod Bucket
pub mod Limiter
