-- ===== src/Blob.antt =====
-- The blob store: rfed/src/blob_store.rs.
pub mod Index
pub mod Sizes
pub mod Room
pub mod Storing
pub mod Open
pub mod Started
mod Tests
