-- ===== src/Decode/Any.antt =====
-- src/decode.rs: the decoders for stored and for unsupported data, and `DecoderAny`, a decoder
-- chosen by the compression method. All the features of the crate are on.
pub mod Total
use rust_delharc.Prelude.{ℕ, Bool, true, false, none, some, List}
use rust_delharc.Outcome.{Outcome, ok, err, panic, out_of_fuel, Prog}
use rust_delharc.Error.{LhaError, map_io, decompress}
use rust_delharc.StubIo.{Read, Take, take_reader}
use rust_delharc.Header.Types.{LhaHeader}
use rust_delharc.Header.Compression
use rust_delharc.Header.Compression.{
  CompressionMethod, pm0, lz4, lh0, lzs, lz5, lh1, lh4, lh5, lh6, lh7, lhx,
}
use rust_delharc.Decode.Lzs
use rust_delharc.Decode.Lzs.{LzsDecoder}
use rust_delharc.Decode.Lz5
use rust_delharc.Decode.Lz5.{Lz5Decoder}
use rust_delharc.Decode.Lhv1
use rust_delharc.Decode.Lhv1.{Lh1Decoder}
use rust_delharc.Decode.Lhv2
use rust_delharc.Decode.Lhv2.Trees.{LhaV2Decoder, lh5_config, lh7_config, lhx_config}

-- `struct PassthroughDecoder<R>` and `struct UnsupportedDecoder<R>` hold the reader alone.
pub data DecoderAny (rd : Read) : Type 0 where
  passthrough_decoder : rd.Reader → DecoderAny rd
  unsupported_decoder : rd.Reader → DecoderAny rd
  lzs_decoder : LzsDecoder rd → DecoderAny rd
  lz5_decoder : Lz5Decoder rd → DecoderAny rd
  lh1_decoder : Lh1Decoder rd → DecoderAny rd
  lh4_decoder : LhaV2Decoder rd → DecoderAny rd
  lh5_decoder : LhaV2Decoder rd → DecoderAny rd
  lh6_decoder : LhaV2Decoder rd → DecoderAny rd
  lh7_decoder : LhaV2Decoder rd → DecoderAny rd
  lhx_decoder : LhaV2Decoder rd → DecoderAny rd

-- The state of a call, under the constructor of the decoder.
abbrev pub rewrap : {E S T A : Type 0} → (S → T) → Outcome E S A → Outcome E T A
rewrap f (ok a s) = ok a (f s)
rewrap f (err e s) = err e (f s)
rewrap f panic = panic
rewrap f out_of_fuel = out_of_fuel

module _ (rd : Read) where
  -- `DecoderAny::new_from_compression`. Only the tree of `-lh1-` is built by code that could panic.
  unfoldable pub new_from_compression :
      CompressionMethod → rd.Reader → Outcome (LhaError rd.Error) (DecoderAny rd) (Unit {0})
  new_from_compression pm0 r = ok tt (passthrough_decoder r)
  new_from_compression lz4 r = ok tt (passthrough_decoder r)
  new_from_compression lh0 r = ok tt (passthrough_decoder r)
  new_from_compression lzs r = ok tt (lzs_decoder (Lzs.new rd r))
  new_from_compression lz5 r = ok tt (lz5_decoder (Lz5.new rd r))
  new_from_compression lh1 r = rewrap lh1_decoder (Lhv1.new rd r)
  new_from_compression lh4 r = ok tt (lh4_decoder (Lhv2.new lh5_config rd r))
  new_from_compression lh5 r = ok tt (lh5_decoder (Lhv2.new lh5_config rd r))
  new_from_compression lh6 r = ok tt (lh6_decoder (Lhv2.new lh7_config rd r))
  new_from_compression lh7 r = ok tt (lh7_decoder (Lhv2.new lh7_config rd r))
  new_from_compression lhx r = ok tt (lhx_decoder (Lhv2.new lhx_config rd r))
  new_from_compression _ r = ok tt (unsupported_decoder r)

  unfoldable pub is_supported : DecoderAny rd → Bool
  is_supported (unsupported_decoder r) = false
  is_supported _ = true

  -- `DecoderAny::into_inner`
  unfoldable pub into_inner : DecoderAny rd → rd.Reader
  into_inner (passthrough_decoder r) = r
  into_inner (unsupported_decoder r) = r
  into_inner (lzs_decoder d) = Lzs.into_inner rd d
  into_inner (lz5_decoder d) = Lz5.into_inner rd d
  into_inner (lh1_decoder d) = Lhv1.into_inner rd d
  into_inner (lh4_decoder d) = Lhv2.into_inner lh5_config rd d
  into_inner (lh5_decoder d) = Lhv2.into_inner lh5_config rd d
  into_inner (lh6_decoder d) = Lhv2.into_inner lh7_config rd d
  into_inner (lh7_decoder d) = Lhv2.into_inner lh7_config rd d
  into_inner (lhx_decoder d) = Lhv2.into_inner lhx_config rd d

  -- `DecoderAny::fill_buffer`; `blocks` bounds the blocks that one command of version 2 begins.
  unfoldable pub fill_buffer : ℕ → ℕ → Prog (LhaError rd.Error) (DecoderAny rd) (List ℕ)
  fill_buffer blocks n (passthrough_decoder r) =
      rewrap passthrough_decoder (map_io (rd.read_exact n) r)
  fill_buffer blocks n (unsupported_decoder r) =
      err (decompress "unsupported compression method") (unsupported_decoder r)
  fill_buffer blocks n (lzs_decoder d) = rewrap lzs_decoder (Lzs.fill_buffer rd n d)
  fill_buffer blocks n (lz5_decoder d) = rewrap lz5_decoder (Lz5.fill_buffer rd n d)
  fill_buffer blocks n (lh1_decoder d) = rewrap lh1_decoder (Lhv1.fill_buffer rd n d)
  fill_buffer blocks n (lh4_decoder d) =
      rewrap lh4_decoder (Lhv2.fill_buffer lh5_config rd blocks n d)
  fill_buffer blocks n (lh5_decoder d) =
      rewrap lh5_decoder (Lhv2.fill_buffer lh5_config rd blocks n d)
  fill_buffer blocks n (lh6_decoder d) =
      rewrap lh6_decoder (Lhv2.fill_buffer lh7_config rd blocks n d)
  fill_buffer blocks n (lh7_decoder d) =
      rewrap lh7_decoder (Lhv2.fill_buffer lh7_config rd blocks n d)
  fill_buffer blocks n (lhx_decoder d) =
      rewrap lhx_decoder (Lhv2.fill_buffer lhx_config rd blocks n d)

-- `DecoderAny::new_from_header`
unfoldable pub new_from_header :
    (rd : Read)
    → LhaHeader
    → rd.Reader
    → Outcome (LhaError rd.Error) (DecoderAny (take_reader rd)) (Unit {0})
new_from_header rd header r =
    let limited_rd : Take rd = record { limit = header.compressed_size; inner = r } in
    elim (Compression.try_from header.compression) [
      | some compression ↦ new_from_compression (take_reader rd) compression limited_rd
      | none ↦ ok tt (unsupported_decoder limited_rd)
    ]
