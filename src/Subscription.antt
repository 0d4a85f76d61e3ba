-- ===== src/Subscription.antt =====
-- Channel subscriptions: rfed/src/subscription.rs.
pub mod Table
pub mod Start
pub mod Holding
pub mod Keys
pub mod Rows
pub mod Renewals
pub mod Deletions
pub mod Disk
mod Tests
