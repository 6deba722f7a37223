-- ===== src/Domain.antt =====
-- src/domain: the vocabulary of the engine.
pub mod Decision
pub mod Evidence
pub mod Subject
pub mod Event
pub mod Policy
