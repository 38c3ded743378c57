-- ===== src/Decode.antt =====
-- src/decode.rs
pub mod Target
pub mod Progress
pub mod Filling
pub mod Splitting
pub mod Lzs
pub mod Lz5
pub mod Lhv1
pub mod Lhv2
pub mod Any
pub mod Archive
