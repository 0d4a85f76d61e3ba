-- ===== src/Deferred.antt =====
-- rfed/src/deferred_queue.rs: blobs that wait for a subscriber, their pages, flushes and expiry.
pub mod State
pub mod Enqueue
pub mod Drain
pub mod Page
pub mod Flush
pub mod Expiry
pub mod Weight
pub mod Conserve
pub mod Op
pub mod Buckets
pub mod Pages
pub mod Frame
pub mod Steps
pub mod Limits
pub mod Tickets
pub mod Load
pub mod View
pub mod Fifo
pub mod Matching
pub mod Paging
pub mod Settle
pub mod Fullest
pub mod Admission
pub mod Flight
pub mod Tally
mod Tests
