-- ===== src/Header/Parser/Reader.antt =====
-- src/header/parser.rs: `Parser`, which keeps two checksums and the length of all that it reads.
use rust_delharc.Prelude.{ℕ, ◌+◌, ◌==◌, Option, none, some, List, length, get_or, if◌then◌else◌}
use rust_delharc.Outcome.{Prog, ◌>>=◌, ◌>>◌, ret, modify, within}
use rust_delharc.Error.{LhaError, map_io}
use rust_delharc.StubIo.{Read}
use rust_delharc.Crc
use rust_delharc.Crc.{Crc16}
use rust_delharc.Header.Bytes.{from_le_bytes, wrapping_csum}

-- `struct Parser<'a, R>`
pub record Parser (rd : Read) : Type 0 where
  pub reader : rd.Reader
  pub crc : Crc16
  pub csum : ℕ
  pub len : ℕ

abbrev pub start : {rd : Read} → rd.Reader → Parser rd
start r = record { reader = r; crc = Crc.new_crc; csum = 0; len = 0 }

module _ (rd : Read) where
  -- A call on `self.rd`, with `.map_err(LhaError::Io)`.
  abbrev pub on_reader :
      {A : Type 0} → Prog rd.Error rd.Reader A → Prog (LhaError rd.Error) (Parser rd) A
  on_reader m = within (λ p. p.reader) (λ p r. record p { reader = r }) (map_io m)

  unfoldable pub update_checksums_no_wrapping_sum : List ℕ → Parser rd → Parser rd
  update_checksums_no_wrapping_sum buf p = record p {
    len = p.len + length buf;
    crc = Crc.digest p.crc buf;
  }

  unfoldable pub update_checksums : List ℕ → Parser rd → Parser rd
  unfolding update_checksums_no_wrapping_sum
  update_checksums buf p = record (update_checksums_no_wrapping_sum buf p) {
    csum = wrapping_csum p.csum buf;
  }

  -- One byte, or `none` at the end of the data.
  unfoldable pub read_u8_or_none : Prog (LhaError rd.Error) (Parser rd) (Option ℕ)
  unfolding update_checksums_no_wrapping_sum
  read_u8_or_none = do
    byte ← on_reader (rd.read_all 1)
    let digested : Prog (LhaError rd.Error) (Parser rd) (Option ℕ) = do
      modify (update_checksums_no_wrapping_sum byte)
      ret (some (get_or byte 0 0))
    if length byte == 0 then ret none else digested

  unfoldable pub read_exact : ℕ → Prog (LhaError rd.Error) (Parser rd) (List ℕ)
  unfolding update_checksums
  read_exact n = do buf ← on_reader (rd.read_exact n); modify (update_checksums buf); ret buf

  unfoldable pub read_u8 : Prog (LhaError rd.Error) (Parser rd) ℕ
  unfolding read_exact
  read_u8 = do buf ← read_exact 1; ret (get_or buf 0 0)

  unfoldable pub read_u16 : Prog (LhaError rd.Error) (Parser rd) ℕ
  unfolding read_exact
  read_u16 = do buf ← read_exact 2; ret (from_le_bytes buf)

  unfoldable pub read_u32 : Prog (LhaError rd.Error) (Parser rd) ℕ
  unfolding read_exact
  read_u32 = do buf ← read_exact 4; ret (from_le_bytes buf)

  -- The allocation of the buffer does not fail.
  unfoldable pub read_limit_no_checksums : ℕ → Prog (LhaError rd.Error) (Parser rd) (List ℕ)
  read_limit_no_checksums limit = on_reader (rd.read_exact limit)

  unfoldable pub read_limit : ℕ → Prog (LhaError rd.Error) (Parser rd) (List ℕ)
  unfolding read_limit_no_checksums update_checksums
  read_limit limit = do buf ← read_limit_no_checksums limit; modify (update_checksums buf); ret buf
