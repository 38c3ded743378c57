-- ===== src/Error.antt =====
-- src/error.rs: the error type. The messages are the source's.
use rust_delharc.Prelude.{String}
use rust_delharc.Outcome.{Prog, map_err}

-- `LhaError<E>`
pub data LhaError (E : Type 0) : Type 0 where
  io : E → LhaError E
  header_parse : String → LhaError E
  decompress : String → LhaError E
  checksum : String → LhaError E

-- `.map_err(LhaError::Io)`
abbrev pub map_io : {E S A : Type 0} → Prog E S A → Prog (LhaError E) S A
map_io = map_err io
