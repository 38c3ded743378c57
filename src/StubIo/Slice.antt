-- ===== src/StubIo/Slice.antt =====
-- src/stub_io.rs: `impl Read for &[u8]`, the reader over bytes in memory.
use rust_delharc.Prelude.{ℕ, List, length, take, drop, min, ltb, if◌then◌else◌}
use rust_delharc.Outcome.{ok, err, Prog}
use rust_delharc.StubIo.Trait.{Read}

-- `struct UnexpectedEofError`
pub data UnexpectedEofError : Type 0 where
  unexpected_eof_error : UnexpectedEofError

-- `impl Read for &[u8]`
unfoldable pub read_all : ℕ → Prog UnexpectedEofError (List ℕ) (List ℕ)
read_all n bytes = let amt = min n (length bytes) in ok (take amt bytes) (drop amt bytes)

unfoldable pub read_exact : ℕ → Prog UnexpectedEofError (List ℕ) (List ℕ)
unfolding read_all
read_exact n bytes =
    if ltb (length bytes) n then err unexpected_eof_error bytes else read_all n bytes

abbrev pub slice : Read
slice = record {
  Reader = List ℕ;
  Error = UnexpectedEofError;
  unexpected_eof = unexpected_eof_error;
  read_all = read_all;
  read_exact = read_exact;
}
