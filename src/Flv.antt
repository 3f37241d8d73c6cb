-- ===== src/Flv.antt =====
-- 3rd/libflv: the FLV container code that the server is built with, in the release build, where
-- `assert` is empty.
pub mod Header
pub mod Parser
pub mod File
pub mod Amf0
mod Tests
