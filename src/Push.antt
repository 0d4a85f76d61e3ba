-- ===== src/Push.antt =====
-- A stream push and its receipts: `PushOutcome` and `tie_receipt` of rfed/src/stream_registry.rs.
pub mod Outcome
pub mod Threads
pub mod Verdict
mod Tests
