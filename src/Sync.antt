-- ===== src/Sync.antt =====
-- rfed/src/sync.rs: the peers of a node with their backoff, the manifests that peers exchange, and the
-- blobs that they send each other within the transfer limits.
pub mod Peers
pub mod Valid
pub mod Wire
mod Tests
pub mod State
pub mod Pull
pub mod Wanted
pub mod Budget
pub mod Caps
pub mod Taking
pub mod RoundTrip
pub mod Serve
pub mod Ingest
pub mod Manifest
pub mod Attempts
