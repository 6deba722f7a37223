-- ===== src/Observability.antt =====
-- src/observability: the counters of the engine.
pub mod Exposition
pub mod Metrics
