-- ===== src/Deferred/Conserve.antt =====
-- What each operation of the deferred queue does to the entries that are stored.
pub mod Drain
pub mod Page
pub mod Flush
pub mod Enqueue
pub mod Expiry
