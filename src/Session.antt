-- ===== src/Session.antt =====
-- Links bound for push: rfed/src/link_session.rs, and the stream registries of
-- rfed/src/stream_registry.rs.
pub mod Registry
pub mod Evict
pub mod OneLink
pub mod Dispatch
pub mod Streams
pub mod OneStream
pub mod Answers
mod Tests
