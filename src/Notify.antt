-- ===== src/Notify.antt =====
-- Notify relay registrations: rfed/src/notify/mod.rs.
pub mod Registry
pub mod Keys
pub mod Rows
pub mod Disk
mod Tests
