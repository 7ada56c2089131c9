-- ===== src/Events.antt =====
-- zooid/events.go: the event store over PostgreSQL.
pub mod Table
pub mod Query
pub mod Answers
pub mod Replace
pub mod Batches
pub mod Replaced
pub mod Failures
pub mod Backoff
pub mod Attempts
pub mod Retries
pub mod Store
