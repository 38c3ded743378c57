-- ===== src/Header/Parser.antt =====
-- src/header/parser.rs: `LhaHeader::read`.
pub mod Reader
pub mod Base
pub mod Extra
pub mod Reads
pub mod Prefixes
pub mod Examined
pub mod Headers
pub mod Total
use rust_delharc.Prelude.{
  ℕ, ◌+◌, ◌-◌, ◌*◌, ◌^◌, Bool, true, false, not, ◌&&◌, ◌||◌, Option, none, some, List, [], ◌∷◌,
  length, u32, ltb, ◌==◌, if◌then◌else◌,
}
use rust_delharc.Outcome.{ok, err, panic, out_of_fuel, Prog, ◌>>=◌, ◌>>◌, ret, fail_if, get}
use rust_delharc.Error.{LhaError, header_parse}
use rust_delharc.StubIo.{Read}
use rust_delharc.Crc
use rust_delharc.Header.Types.{LhaHeader}
use Reader.{Parser, read_u8, start}
use Base.{Prefix, read_prefix}
use Extra.{Collected, read_extra}

module _ (rd : Read) where
  -- "validate long header length", and the padding byte of level 2.
  unfoldable pub check_long_header_len : Prefix → Prog (LhaError rd.Error) (Parser rd) (Unit {0})
  check_long_header_len x p =
      let len = u32 p.len in
      let long = x.long_header_len in
      if not (long == 0) && not (long == len)
      then (if x.level == 2 && long == len + 1
          then (read_u8 rd >>= λ _. ret tt) p
          else fail_if (x.level == 2 && not (long + 2 == len))
              (header_parse "wrong length of headers") p)
      else ok tt p

  -- "validate headers CRC"
  unfoldable pub check_header_crc : Option ℕ → Prog (LhaError rd.Error) (Parser rd) (Unit {0})
  check_header_crc none p = ok tt p
  check_header_crc (some crc) p =
      fail_if (not (crc == Crc.sum16 p.crc)) (header_parse "wrong header CRC-16 checksum") p

  -- "adjust compressed size for level 1"
  unfoldable pub skip_size : Prefix → Collected → Prog (LhaError rd.Error) (Parser rd) ℕ
  skip_size x c p =
      let size = length c.extra_headers in
      if x.level == 1
      then (if ltb c.compressed_size size
          then err (header_parse "wrong length of skip size") p
          else ok (c.compressed_size - size) p)
      else ok c.compressed_size p

  -- From the first byte on, when it is there and is not 0.
  unfoldable pub read_header : ℕ → Prog (LhaError rd.Error) (Parser rd) LhaHeader
  unfolding check_long_header_len check_header_crc skip_size
  read_header header_len = do
    x ← read_prefix rd header_len
    c ← read_extra rd x
    check_long_header_len x
    check_header_crc c.header_crc
    compressed_size ← skip_size x c
    ret (record {
      level = x.level;
      compression = x.compression;
      compressed_size = compressed_size;
      original_size = c.original_size;
      filename = x.filename;
      msdos_attrs = c.msdos_attrs;
      last_modified = x.last_modified;
      os_type = x.os_type;
      file_crc = x.file_crc;
      extended_area = x.extended_area;
      first_header_len = x.first_header_len;
      extra_headers = c.extra_headers;
    })

  unfoldable pub read_or_end : Option ℕ → Prog (LhaError rd.Error) (Parser rd) (Option LhaHeader)
  unfolding read_header
  read_or_end none p = ok none p
  read_or_end (some header_len) p = elim (header_len == 0) [
    | true ↦ ok none p
    | false ↦ (read_header header_len >>= λ h. ret (some h)) p
  ]

  -- `LhaHeader::read`: the parser lives for this call, and the reader is what is left.
  unfoldable pub read : Prog (LhaError rd.Error) rd.Reader (Option LhaHeader)
  unfolding read_or_end
  read r = elim ((Reader.read_u8_or_none rd >>= read_or_end) (start r)) [
    | ok h p ↦ ok h p.reader
    | err e p ↦ err e p.reader
    | panic ↦ panic
    | out_of_fuel ↦ out_of_fuel
  ]
