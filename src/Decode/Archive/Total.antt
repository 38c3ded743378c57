-- ===== src/Decode/Archive/Total.antt =====
-- src/decode.rs: reading the current file of an archive with any method but `-lh1-`, from any reader
-- that keeps its promises.
use rust_delharc.Prelude.{Bool, true, false, ℕ, ◌*◌, ◌≤◌, arith, Option, none, some}
use rust_delharc.Outcome.{Outcome, ok, err, panic, out_of_fuel, Ends, Returns}
use rust_delharc.Error.{LhaError}
use rust_delharc.StubIo.{Read, Take, take_reader}
use rust_delharc.StubIo.Laws.{IsReader, take-IsReader}
use rust_delharc.Crc
use rust_delharc.Header.Types.{LhaHeader}
use rust_delharc.Header.Parser
use rust_delharc.Header.Parser.Total.{HasExtrasIfAny, read-Ends}
use rust_delharc.Decode.Any
use rust_delharc.Decode.Any.{DecoderAny, unsupported_decoder}
use rust_delharc.Decode.Any.Total.{IsDecoder, IsOpened, new_from_header-IsOpened}
use rust_delharc.Decode.Archive.{
  LhaDecodeReader, LhaDecodeError, read, begin_new, begin_with_header_and_decoder, wrap_err,
}

module _ (rd : Read) (laws : IsReader rd) (c : ℕ) where
  -- There is a decoder, which can decode the file.
  abbrev pub HasDecoder : Option (DecoderAny (take_reader rd)) → Type 0
  HasDecoder none = ⊥
  HasDecoder (some d) = IsDecoder (take_reader rd) (take-IsReader rd laws) c d

  -- And no more of the file was read than there is.
  abbrev pub CanRead : LhaDecodeReader rd → Type 0
  CanRead a = HasDecoder a.decoder × (a.output_length ≤ a.header.original_size)

module _ (rd : Read) (laws : IsReader rd) where
  -- There is a decoder, which can decode the file unless it is that of -lh1-.
  abbrev pub OpenedDecoder : ℕ → Option (DecoderAny (take_reader rd)) → Type 0
  OpenedDecoder c none = ⊥
  OpenedDecoder c (some d) = IsOpened (take_reader rd) (take-IsReader rd laws) c d

  abbrev pub IsBegun : LhaDecodeReader rd → Type 0
  IsBegun a =
      OpenedDecoder (8 * a.header.compressed_size) a.decoder
      × (a.output_length ≤ a.header.original_size)

  begun :
      (header : LhaHeader) (a : LhaDecodeReader rd)
      → (o : Outcome (LhaError rd.Error) (DecoderAny (take_reader rd)) (Unit {0}))
      → Returns
          (λ u d. IsOpened (take_reader rd) (take-IsReader rd laws) (8 * header.compressed_size) d)
          o
      → Ends {E = LhaDecodeError rd}
          (λ more a'. IsBegun a')
          (λ a'. Unit)
          (elim o as (λ x. Outcome (LhaDecodeError rd) (LhaDecodeReader rd) Bool) [
            | ok _ decoder ↦ ok true (begin_with_header_and_decoder rd header decoder a)
            | err e decoder ↦ panic
            | panic ↦ panic
            | out_of_fuel ↦ out_of_fuel
          ])
  unfolding begin_with_header_and_decoder
  begun header a (ok u d) h = (h, omega arith)
  begun header a (err e d) h = tt
  begun header a panic h = tt
  begun header a out_of_fuel h = h

  -- Going on to the next header with a reader in a valid state ends, by returning or in a panic,
  -- and if it returns a value, then there is a decoder, and unless it is that of -lh1- it is fit to
  -- decode as many bits as the compressed size of the header has; no more of the file counts as
  -- read than the header says.
  pub begin_new-IsBegun :
      (r : rd.Reader) (a : LhaDecodeReader rd)
      → laws.Valid r
      → Ends (λ more a'. IsBegun a') (λ a'. Unit) (begin_new rd r a)
  unfolding begin_new begin_with_header_and_decoder
  begin_new-IsBegun r a v = by_header (Parser.read rd r) (read-Ends rd laws r v)
    where
      by_header :
          (o : Outcome (LhaError rd.Error) rd.Reader (Option LhaHeader))
          → Ends (λ h r'. laws.Valid r' × HasExtrasIfAny h) laws.Valid o
          → Ends {E = LhaDecodeError rd}
              (λ more a'. IsBegun a')
              (λ a'. Unit)
              (elim o as (λ x. Outcome (LhaDecodeError rd) (LhaDecodeReader rd) Bool) [
                | ok h r' ↦ elim h as (λ y. Outcome (LhaDecodeError rd) (LhaDecodeReader rd) Bool) [
                  | some header ↦
                      elim (Any.new_from_header rd header r')
                        as (λ x. Outcome (LhaDecodeError rd) (LhaDecodeReader rd) Bool) [
                          | ok _ decoder ↦
                              ok true (begin_with_header_and_decoder rd header decoder a)
                          | err e decoder ↦ panic
                          | panic ↦ panic
                          | out_of_fuel ↦ out_of_fuel
                        ]
                  | none ↦
                      let limited : Take rd = record { limit = 0; inner = r' } in
                      ok false
                        (begin_with_header_and_decoder rd a.header (unsupported_decoder limited) a)
                ]
                | err e r' ↦ err (wrap_err rd r' e) a
                | panic ↦ panic
                | out_of_fuel ↦ out_of_fuel
              ])
      by_header (ok none r') (h, k) = (h, omega arith)
      by_header (ok (some header) r') (h, k) =
          begun header a (Any.new_from_header rd header r')
            (new_from_header-IsOpened rd laws header r' h)
      by_header (err e r') h = tt
      by_header panic h = tt
      by_header out_of_fuel h = h
