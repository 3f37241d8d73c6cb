-- ===== src/Session/Rtmp.antt =====
-- src/session/rtmp: the sessions of RTMP connections, which pass frames on by subscribers of their own.
pub mod Publish
pub mod Play
mod Tests
