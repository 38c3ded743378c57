-- ===== src/Lib.antt =====
-- delharc: a library that reads LHA archives (src/lib.rs).
--
-- An archive is a sequence of headers, each followed by the compressed bytes of a file.
-- `LhaDecodeReader` (src/decode.rs) parses a header (src/header/parser.rs), picks the decoder for
-- its method, gives it the bytes of the file through a `Take` (src/stub_io.rs), sums what is
-- decoded into a CRC-16 (src/crc.rs), and skips what is left of the bytes to get to the next header.
-- The decoders read bits (src/bitstream.rs), decode commands with Huffman trees (src/statictree.rs,
-- src/decode/lhv1/dyntree.rs), and copy from a window of the last bytes (src/ringbuf.rs).
--
-- The files:
-- - Prelude: the libraries' names, lists and tests over the native numbers, words and bits.
-- - Outcome: how a call ends (a value, an error, a panic, no fuel) with the state it leaves, and the
--   state monad in which the stateful code is written.
-- - Error: src/error.rs. StubIo: src/stub_io.rs, with `Read` as a record of operations.
-- - Crc: src/crc.rs; Crc.Bitwise has the definition of CRC-16 by single bits.
-- - RingBuf: src/ringbuf.rs; RingBuf.Window and RingBuf.Copy have the abstract window,
--   RingBuf.Split copies in two parts.
-- - BitStream: src/bitstream.rs, for a `usize` of 64 bits; BitStream.Marker and BitStream.Refill have
--   the arithmetic of its word, BitStream.Word what it makes of a reader's bytes, BitStream.Refine and
--   BitStream.Stream the number that its bits make, BitStream.Total what is left after each read.
-- - StaticTree: src/statictree.rs, with StaticTree.Entry for src/statictree/entry.rs.
--   StaticTree.Canonical defines the canonical code of a list of lengths, StaticTree.Levels and
--   StaticTree.Places follow the rounds of `build_tree`, StaticTree.Codes and StaticTree.Reading the
--   walk along a code, and along one in a bit stream.
-- - Header: src/header.rs and src/header/: Header.Parser (with Reader, Base and Extra) is
--   `LhaHeader::read`, Header.Extras the loop over the extra headers, Header.Compression and
--   Header.OsTypes are the enums, Header.Names the names, paths and comments, Header.Timestamp the
--   timestamps. Header.Parser.Reads, Prefixes, Examined, Headers and Total follow the parser
--   through a header.
-- - Decode: Decode.Lzs, Decode.Lz5, Decode.Lhv1 (with Nodes, Build and DynTree for
--   src/decode/lhv1/dyntree.rs, and Links, Swap, Promote, Ranks, Grow, Grown and Tree about the state of
--   that tree while the frequencies grow) and Decode.Lhv2 (with Trees) are the files of that name under
--   src/decode/; Decode.Any and Decode.Archive are src/decode.rs.
-- - Decode.Filling: the loops over a target and invariants. The modules named Total under Decode
--   have those of each decoder, of `DecoderAny` and of `LhaDecodeReader`; Decode.Lhv2.Reads and
--   Decode.Lhv2.Blocks those of the trees of a block.
-- - Decode.Splitting: filling one buffer against filling two, for a decoder that resumes a copy;
--   Decode.Lzs.Splitting and Decode.Lhv2.Splitting show that the decoders do. Decode.Progress: the
--   fields that keep what is left of a copy.
-- - Checks: inputs on which the theorems are applied.
--
-- A reader is a parameter: a value of `Read` with its state and its calls. A buffer to fill is given
-- by its length, and the bytes written are returned. A failed `debug_assert!`, an index out of
-- bounds, checked or not, and an overflow are the outcome `panic`.
--
-- Loops without a bound in the source take fuel. `discard_to_end` gets one round for each byte up to
-- the limit and one more; a walk in a static tree gets the number of its nodes; a loop over a target
-- buffer gets its length, as each round writes a byte or more; the extra headers get a round for
-- each of their bytes at most. Only the loop of `fill_buffer` in src/decode/lhv2.rs over blocks
-- without commands has no bound but the input's, so its fuel is an argument, `blocks`: each block
-- takes 16 bits or more, so that more than a sixteenth of the bits is enough.
--
-- What a reader is relied on for, `IsReader`, is in StubIo.Laws: slices and `Take` keep it, and the
-- theorems that exclude a panic are for any such reader. The number that the bits of a stream make,
-- and the archive that goes on to the next file, are for bytes in memory, the implementation of
-- `Read` for slices.
--
-- The chrono library, `PathBuf` and the platform's test for separators are parameters. What
-- `PathBuf::push` is documented to do on a platform whose paths have no prefixes is `IsUnix` in
-- Header.Names.Unix; nothing is said of `parse_pathname` with the prefixes of Windows, besides the
-- names that it pushes.
--
-- Not modelled: formatting, conversions between error types, the implementation of `Read` over the
-- standard library, a failure to allocate memory, the names of the bits of MS-DOS attributes, and
-- opening files. The dynamic tree of -lh1- is modelled, but the theorems that exclude a panic leave
-- that method out.
pub mod Prelude
pub mod Outcome
pub mod Error
pub mod StubIo
pub mod Crc
pub mod RingBuf
pub mod BitStream
pub mod StaticTree
pub mod Header
pub mod Decode
pub mod Checks
