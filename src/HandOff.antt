-- ===== src/HandOff.antt =====
-- rfed/src/handoff.rs: what becomes of a blob whose delivery no proof confirmed.
pub mod Route
pub mod Counts
pub mod Silent
mod Tests
