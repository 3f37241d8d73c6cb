-- ===== src/Rtmp.antt =====
-- 3rd/librtmp: the RTMP chunk layer that the server is built with, in the release build, where
-- `assert` is empty.
pub mod ChunkHeader
pub mod Packet
pub mod ChunkWrite
pub mod Control
pub mod Handler
pub mod ChunkRead
mod Tests
