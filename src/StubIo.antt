-- ===== src/StubIo.antt =====
-- src/stub_io.rs: the `Read` trait, its implementations for byte slices and for `Take`, and
-- `discard_to_end`.
pub mod Trait
pub mod Slice
pub mod Limit
pub mod Discard
pub mod Slices
pub mod Laws
pub use Trait.{Read}
pub use Slice.{slice}
pub use Limit.{Take, take_reader}
