-- ===== src/Decode/Archive.antt =====
-- src/decode.rs: `LhaDecodeReader`, which goes through the files of an archive.
pub mod Invariant
pub mod Total
use rust_delharc.Prelude.{
  ℕ, ◌+◌, ◌-◌, ◌*◌, Bool, true, false, Option, none, some, List, min, ltb, ◌==◌, if◌then◌else◌,
}
use rust_delharc.Outcome.{Outcome, ok, err, panic, out_of_fuel, Prog}
use rust_delharc.Error.{LhaError, io, header_parse, checksum}
use rust_delharc.StubIo.{Read, Take, take_reader}
use rust_delharc.StubIo.Discard.{discard_to_end}
use rust_delharc.Crc
use rust_delharc.Crc.{Crc16}
use rust_delharc.Header.Types.{LhaHeader, default_header}
use rust_delharc.Header.Parser
use rust_delharc.Decode.Any
use rust_delharc.Decode.Any.{DecoderAny, unsupported_decoder}

-- `struct LhaDecodeReader<R>`
pub record LhaDecodeReader (rd : Read) : Type 0 where
  pub header : LhaHeader
  pub crc : Crc16
  pub output_length : ℕ
  pub decoder : Option (DecoderAny (take_reader rd))

-- `struct LhaDecodeError<R>`
pub record LhaDecodeError (rd : Read) : Type 0 where
  pub read : rd.Reader
  pub source : LhaError rd.Error

-- `LhaDecodeReader::default()`
abbrev pub empty_reader : {rd : Read} → LhaDecodeReader rd
empty_reader = record {
  header = default_header;
  crc = Crc.new_crc;
  output_length = 0;
  decoder = none;
}

module _ (rd : Read) where
  -- `wrap_err`
  abbrev pub wrap_err : rd.Reader → LhaError rd.Error → LhaDecodeError rd
  wrap_err r e = record { read = r; source = e }

  -- `new`: the state is the reader that it makes.
  unfoldable pub new : rd.Reader → Outcome (LhaDecodeError rd) (LhaDecodeReader rd) (Unit {0})
  new r = elim (Parser.read rd r) [
    | ok h r' ↦ elim h [
      | none ↦ err (wrap_err r' (header_parse "a header is missing")) empty_reader
      | some header ↦ elim (Any.new_from_header rd header r') [
        | ok _ decoder ↦ ok tt (record {
          header = header;
          crc = Crc.new_crc;
          output_length = 0;
          decoder = some decoder;
        })
        | err e decoder ↦ panic
        | panic ↦ panic
        | out_of_fuel ↦ out_of_fuel
      ]
    ]
    | err e r' ↦ err (wrap_err r' e) empty_reader
    | panic ↦ panic
    | out_of_fuel ↦ out_of_fuel
  ]

  -- The fields after a header and a decoder are set, `self.crc.reset()` and
  -- `self.output_length = 0`.
  unfoldable pub begin_with_header_and_decoder :
      LhaHeader → DecoderAny (take_reader rd) → LhaDecodeReader rd → LhaDecodeReader rd
  begin_with_header_and_decoder header decoder a = record {
    header = header;
    crc = Crc.reset a.crc;
    output_length = 0;
    decoder = some decoder;
  }

  unfoldable pub begin_new : rd.Reader → Prog (LhaDecodeError rd) (LhaDecodeReader rd) Bool
  unfolding begin_with_header_and_decoder
  begin_new r a = elim (Parser.read rd r) [
    | ok h r' ↦ elim h [
      | some header ↦ elim (Any.new_from_header rd header r') [
        | ok _ decoder ↦ ok true (begin_with_header_and_decoder header decoder a)
        | err e decoder ↦ panic
        | panic ↦ panic
        | out_of_fuel ↦ out_of_fuel
      ]
      | none ↦
          let limited : Take rd = record { limit = 0; inner = r' } in
          ok false (begin_with_header_and_decoder a.header (unsupported_decoder limited) a)
    ]
    | err e r' ↦ err (wrap_err r' e) a
    | panic ↦ panic
    | out_of_fuel ↦ out_of_fuel
  ]

  -- `next_file_with_sink::<BUF>`, and `next_file` with a buffer of 8 KB. Each round of
  -- `discard_to_end` takes a byte or more off the limit.
  unfoldable pub next_file_with_sink : ℕ → Prog (LhaDecodeError rd) (LhaDecodeReader rd) Bool
  unfolding begin_new
  next_file_with_sink buf a = elim a.decoder [
    | none ↦ panic
    | some decoder ↦
        let limited_rd = Any.into_inner (take_reader rd) decoder in
        let taken = record a { decoder = none } in
        let discarded : Outcome (LhaDecodeError rd) (LhaDecodeReader rd) Bool =
          elim (discard_to_end (take_reader rd) (limited_rd.limit + 1) buf limited_rd) [
            | ok _ t ↦ begin_new t.inner taken
            | err e t ↦ err (wrap_err t.inner (io e)) taken
            | panic ↦ panic
            | out_of_fuel ↦ out_of_fuel
          ] in
        if limited_rd.limit == 0 then begin_new limited_rd.inner taken else discarded
  ]

  unfoldable pub next_file : Prog (LhaDecodeError rd) (LhaDecodeReader rd) Bool
  next_file = next_file_with_sink (8 * 1024)

  -- `take_inner`
  unfoldable pub take_inner : LhaDecodeReader rd → Option rd.Reader × LhaDecodeReader rd
  take_inner a = (
    elim a.decoder [
      | none ↦ none
      | some decoder ↦ some (Any.into_inner (take_reader rd) decoder).inner
    ],
    record {
      header = record a.header { original_size = 0 };
      crc = Crc.reset a.crc;
      output_length = 0;
      decoder = none;
    },
  )

  -- `into_inner`; `none` is a panic.
  unfoldable pub into_inner : LhaDecodeReader rd → Option rd.Reader
  into_inner a = elim a.decoder [
    | none ↦ none
    | some decoder ↦ some (Any.into_inner (take_reader rd) decoder).inner
  ]

  -- `len`; `none` is a panic, of the subtraction.
  unfoldable pub len : LhaDecodeReader rd → Option ℕ
  len a =
      if ltb a.header.original_size a.output_length
      then none
      else some (a.header.original_size - a.output_length)

  unfoldable pub is_empty : LhaDecodeReader rd → Bool
  is_empty a = a.header.original_size == a.output_length

  unfoldable pub crc_is_ok : LhaDecodeReader rd → Bool
  crc_is_ok a = Crc.sum16 a.crc == a.header.file_crc

  -- `crc_check`, which leaves the reader alone.
  unfoldable pub crc_check : Prog (LhaError rd.Error) (LhaDecodeReader rd) ℕ
  unfolding crc_is_ok
  crc_check a = if crc_is_ok a then ok a.header.file_crc a else err (checksum "crc16 mismatch") a

  unfoldable pub is_decoder_supported : LhaDecodeReader rd → Bool
  is_decoder_supported a = elim a.decoder [
    | none ↦ false
    | some decoder ↦ Any.is_supported (take_reader rd) decoder
  ]

  -- `Read::read` (with `std`) and `Read::read_all` (without), for a buffer of the given length: the
  -- bytes that are written to its front. The subtraction of what was read may overflow.
  unfoldable pub read : ℕ → ℕ → Prog (LhaError rd.Error) (LhaDecodeReader rd) (List ℕ)
  unfolding len
  read blocks n a = elim (len a) [
    | none ↦ panic
    | some left ↦ elim a.decoder [
      | none ↦ panic
      | some decoder ↦
          let len = min n left in
          elim (Any.fill_buffer (take_reader rd) blocks len decoder) [
            | ok target d ↦ ok target (record {
              header = a.header;
              crc = Crc.digest a.crc target;
              output_length = a.output_length + len;
              decoder = some d;
            })
            | err e d ↦ err e (record a { decoder = some d })
            | panic ↦ panic
            | out_of_fuel ↦ out_of_fuel
          ]
    ]
  ]
