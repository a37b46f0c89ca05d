-- ===== src/Session.antt =====
-- The durable session: its events, its actor, the store and the recovery after a crash
-- (crates/duragent/src/session/ and crates/duragent/src/store/file/session.rs).
mod Tests
pub mod Message
pub mod Event
pub mod Store
pub mod Replay
pub mod Actor
pub mod Persist
pub mod Commands
pub mod Recover
pub mod Journal
pub mod Consistent
