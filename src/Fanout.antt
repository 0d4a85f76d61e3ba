-- ===== src/Fanout.antt =====
-- rfed/src/fanout.rs: a channel publish on its way to the subscribers, and the announce flush.
pub mod Channel
pub mod Routes
pub mod Ways
pub mod Went
pub mod Flush
pub mod Copies
pub mod Sending
pub mod Plan
pub mod Expired
pub mod Whole
pub mod Flushes
mod Tests
