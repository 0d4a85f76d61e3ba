-- ===== src/Distro.antt =====
-- rfed/src/distro.rs: the devices of a distribution list, the announces that they leave, and the
-- fan-out of a blob to them.
pub mod Table
pub mod Announces
pub mod Verify
mod Tests
pub mod Counted
pub mod Fanout
pub mod Fates
pub mod Tally
pub mod Accepted
pub mod Disk
pub mod Members
