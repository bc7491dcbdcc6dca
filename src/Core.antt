-- ===== src/Core.antt =====
-- src/core: the vocabulary of sessions, events and failures.
pub mod Session
pub mod Failure
pub mod Event
pub mod UsageSource
