-- ===== src/Session.antt =====
-- src/session: a session's life, the publisher that feeds its subscribers, and the players.
pub mod Impl
pub mod Publish
pub mod Play
pub mod Rtmp
mod Tests
