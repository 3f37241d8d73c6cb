-- ===== src/Server.antt =====
-- src/server: what the server keeps of its sessions.
pub mod SessionList
pub mod Transmition
