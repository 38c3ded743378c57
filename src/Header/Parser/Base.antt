-- ===== src/Header/Parser/Base.antt =====
-- src/header/parser.rs: the part of `LhaHeader::read` before the extra headers.
use rust_delharc.Prelude.{
  ℕ, ◌+◌, ◌-◌, ◌^◌, not, ◌&&◌, ◌||◌, List, [], ◌∷◌, take, drop, get_or, u32, ltb, ◌==◌,
  if◌then◌else◌,
}
use rust_delharc.Outcome.{Prog, ◌>>=◌, ◌>>◌, ret, fail_if, get, modify, assert}
use rust_delharc.Error.{LhaError, header_parse}
use rust_delharc.StubIo.{Read}
use rust_delharc.Header.Bytes.{from_le_bytes}
use rust_delharc.Header.Parser.Reader.{Parser, read_exact, read_u8, read_u16, read_u32, read_limit}

-- `struct LhaRawBaseHeader`, whose 19 bytes are read at once.
pub record LhaRawBaseHeader : Type 0 where
  pub compression : List ℕ
  pub compressed_size : List ℕ
  pub original_size : List ℕ
  pub last_modified : List ℕ
  pub msdos_attrs : ℕ
  pub lha_level : ℕ

unfoldable pub raw_base_header : List ℕ → LhaRawBaseHeader
raw_base_header bytes = record {
  compression = take 5 bytes;
  compressed_size = take 4 (drop 5 bytes);
  original_size = take 4 (drop 9 bytes);
  last_modified = take 4 (drop 13 bytes);
  msdos_attrs = get_or bytes 17 0;
  lha_level = get_or bytes 18 0;
}

-- The local variables of `read` when the extra headers begin; the sizes and the attributes are the
-- ones of the base header.
pub record Prefix : Type 0 where
  pub level : ℕ
  pub compression : List ℕ
  pub compressed_size : ℕ
  pub original_size : ℕ
  pub last_modified : ℕ
  pub msdos_attrs : ℕ
  pub filename : List ℕ
  pub file_crc : ℕ
  pub os_type : ℕ
  pub extended_area : List ℕ
  pub first_header_len : ℕ
  pub long_header_len : ℕ

module _ (rd : Read) where
  -- "read filename if level 0 or 1"
  unfoldable pub read_filename : ℕ → ℕ → Prog (LhaError rd.Error) (Parser rd) (List ℕ)
  read_filename level header_len =
      let short : Prog (LhaError rd.Error) (Parser rd) (List ℕ) = do
        filename_len ← read_u8 rd
        p ← get
        fail_if (ltb header_len (p.len + filename_len)) (header_parse "wrong header size")
        read_limit rd filename_len
      in if ltb level 2 then short else ret []

  -- "extended area, only 0 and 1 level"; in level 0 its first byte is the OS type.
  unfoldable pub read_extended : ℕ → ℕ → ℕ → Prog (LhaError rd.Error) (Parser rd) (ℕ × List ℕ)
  read_extended level header_len os_type =
      let area : Prog (LhaError rd.Error) (Parser rd) (ℕ × List ℕ) = do
        p ← get
        let min_len = if level == 0 then p.len - 2 else p.len
        fail_if (ltb header_len min_len) (header_parse "wrong header size")
        let extended_len = header_len - min_len
        let with_os_type = not (extended_len == 0) && level == 0
        os_type' ← if with_os_type then read_u8 rd else ret os_type
        let rest_len = if with_os_type then extended_len - 1 else extended_len
        extended_area ← if rest_len == 0 then ret [] else read_limit rd rest_len
        ret (os_type', extended_area)
      in if ltb level 2 then area else ret (os_type, [])

  -- "establish the first extra header length and the long header length": the second number is the
  -- long one.
  unfoldable pub read_header_lens : ℕ → ℕ → ℕ → Prog (LhaError rd.Error) (Parser rd) (ℕ × ℕ)
  read_header_lens level header_len csum =
      let one : Prog (LhaError rd.Error) (Parser rd) (ℕ × ℕ) = do
        first ← read_u16 rd
        ret (first, 0)
      in let two : Prog (LhaError rd.Error) (Parser rd) (ℕ × ℕ) = do
        first ← read_u16 rd
        ret (first, from_le_bytes (header_len ∷ csum ∷ []))
        in let three : Prog (LhaError rd.Error) (Parser rd) (ℕ × ℕ) = do
          long ← read_u32 rd
          first ← read_u32 rd
          fail_if (not (header_len == 4) || not (csum == 0)) (header_parse "invalid header")
          ret (first, long)
          in if level == 1
            then one
            else if level == 2
            then two
            else if level == 3
            then three
            else ret (0, 0)

  -- The checksum of levels 0 and 1, the length of levels 2 and 3; its sum is one of `u32`, which
  -- panics when it overflows.
  unfoldable pub check_lens : ℕ → ℕ → ℕ × ℕ → Prog (LhaError rd.Error) (Parser rd) (Unit {0})
  check_lens level csum (first, long) p =
      let sum = u32 p.len + first in
      let long_check = do
        assert (ltb sum (2 ^ 32))
        fail_if (ltb long sum) (header_parse "wrong header size")
      in if ltb level 2
        then fail_if (not (csum == p.csum)) (header_parse "invalid header level checksum") p
        else long_check p

  unfoldable pub read_prefix : ℕ → Prog (LhaError rd.Error) (Parser rd) Prefix
  unfolding raw_base_header read_filename read_extended read_header_lens check_lens
  read_prefix header_len = do
    csum ← read_u8 rd
    modify (λ p. record p { csum = 0 })
    bytes ← read_exact rd 19
    let raw = raw_base_header bytes
    fail_if (ltb 3 raw.lha_level) (header_parse "unknown header level")
    filename ← read_filename raw.lha_level header_len
    file_crc ← read_u16 rd
    os_type ← if ltb 0 raw.lha_level then read_u8 rd else ret 0
    extended ← read_extended raw.lha_level header_len os_type
    lens ← read_header_lens raw.lha_level header_len csum
    check_lens raw.lha_level csum lens
    ret (record {
      level = raw.lha_level;
      compression = raw.compression;
      compressed_size = from_le_bytes raw.compressed_size;
      original_size = from_le_bytes raw.original_size;
      last_modified = from_le_bytes raw.last_modified;
      msdos_attrs = raw.msdos_attrs;
      filename = filename;
      file_crc = file_crc;
      os_type = extended.0;
      extended_area = extended.1;
      first_header_len = lens.0;
      long_header_len = lens.1;
    })
