-- ===== src/Header.antt =====
-- src/header.rs
pub mod Types
pub mod Compression
pub mod OsTypes
pub mod Bytes
pub mod Parser
pub mod Codes
pub mod Extras
pub mod Names
pub mod Timestamp
