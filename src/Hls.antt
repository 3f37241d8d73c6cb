-- ===== src/Hls.antt =====
-- src/hls and src/session/hls: the playlists of HLS fragments.
pub mod Playlist
pub mod Counts
pub mod Writer
pub mod Cleaner
pub mod Session
pub mod Fragments
mod Tests
