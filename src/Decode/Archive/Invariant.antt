-- ===== src/Decode/Archive/Invariant.antt =====
-- src/decode.rs: what a reader keeps while a file is read, and where the next file is looked for.
use rust_delharc.Prelude.{
  ℕ, ◌+◌, ◌-◌, ◌≤◌, ◌<◌, ◌≡◌, refl, sym, ap, ◌∙◌, ◌↔◌, inl, inr, Bool-cases, Option, none, some,
  List, [], ◌++◌, drop, min, le→ltb-false, ◌==◌, ==_iff, arith,
}
use rust_delharc.Outcome.{Outcome, ok, err, panic, out_of_fuel}
use rust_delharc.Error.{LhaError}
use rust_delharc.StubIo.{Read, slice, take_reader}
use rust_delharc.StubIo.Slices.{discard_to_end-slice}
use rust_delharc.Crc
use rust_delharc.Crc.Bitwise.{digest-append, digest-nil}
use rust_delharc.Decode.Any
use rust_delharc.Decode.Any.{DecoderAny}
use rust_delharc.Decode.Archive.{
  LhaDecodeReader, read, crc_is_ok, crc_check, next_file_with_sink, begin_new,
  begin_with_header_and_decoder, len,
}

-- `out` is what was read of the current file: the checksum is that of `out`, and no more was read
-- than the header says.
pub record Tracks (rd : Read) (out : List ℕ) (a : LhaDecodeReader rd) : Type 0 where
  pub checked : a.crc ≡ Crc.digest Crc.new_crc out
  pub bounded : a.output_length ≤ a.header.original_size

-- After a call that was to read up to `n` bytes.
abbrev pub ReadTracks :
    (rd : Read)
    → List ℕ
    → LhaDecodeReader rd
    → ℕ
    → Outcome (LhaError rd.Error) (LhaDecodeReader rd) (List ℕ)
    → Type 0
ReadTracks rd out a n (ok bytes b) =
    Tracks rd (out ++ bytes) b
    × ((left : ℕ) × (len rd a ≡ some left) × (b.output_length ≡ a.output_length + min n left))
    × (b.header ≡ a.header)
ReadTracks rd out a n (err e b) =
    Tracks rd out b × (b.output_length ≡ a.output_length) × (b.header ≡ a.header)
ReadTracks rd out a n panic = Unit
ReadTracks rd out a n out_of_fuel = Unit

module _ (rd : Read) where
  -- The length that is left, when no more was read than there is.
  pub len-ok :
      (a : LhaDecodeReader rd)
      → a.output_length ≤ a.header.original_size
      → len rd a ≡ some (a.header.original_size - a.output_length)
  unfolding len
  len-ok a h = rw (le→ltb-false _ _ h) refl

  -- A file begins with nothing read.
  pub begin-Tracks :
      (header : _) (d : DecoderAny (take_reader rd)) (a : LhaDecodeReader rd)
      → Tracks rd [] (begin_with_header_and_decoder rd header d a)
  unfolding begin_with_header_and_decoder Crc.reset
  begin-Tracks header d a = record { checked = sym (digest-nil Crc.new_crc); bounded = omega arith }

  -- If the checksum is that of the bytes read so far and no more were read than the header says,
  -- then both hold after a `read` that returns bytes, for all bytes so far, the length read grows
  -- by the smaller of the buffer and what `len` returned, and the header stays; after an error all
  -- three are as before. Nothing is said of a call that panics or has too little fuel.
  pub read-Tracks :
      (blocks n : ℕ) (out : List ℕ) (a : LhaDecodeReader rd)
      → Tracks rd out a
      → ReadTracks rd out a n (read rd blocks n a)
  unfolding read
  read-Tracks blocks n out a t = rw (read, len-ok a t.bounded) (by_decoder a.decoder)
    where
      after :
          (d : DecoderAny (take_reader rd))
          (o : Outcome (LhaError rd.Error) (DecoderAny (take_reader rd)) (List ℕ))
          → ReadTracks rd out a n
              (elim o as (λ x. Outcome (LhaError rd.Error) (LhaDecodeReader rd) (List ℕ)) [
                | ok target d ↦ ok target (record {
                  header = a.header;
                  crc = Crc.digest a.crc target;
                  output_length =
                      a.output_length + min n (a.header.original_size - a.output_length);
                  decoder = some d;
                })
                | err e d ↦ err e (record a { decoder = some d })
                | panic ↦ panic
                | out_of_fuel ↦ out_of_fuel
              ])
      after d (ok target d') = (
        record {
          checked =
              ap (λ c. Crc.digest c target) t.checked ∙ sym (digest-append Crc.new_crc out target);
          bounded = omega (arith, t.bounded);
        },
        (a.header.original_size - a.output_length, len-ok a t.bounded, refl),
        refl,
      )
      after d (err e d') = (record { checked = t.checked; bounded = t.bounded }, refl, refl)
      after d panic = tt
      after d out_of_fuel = tt

      by_decoder :
          (d : Option (DecoderAny (take_reader rd)))
          → ReadTracks rd out a n
              (elim d as (λ x. Outcome (LhaError rd.Error) (LhaDecodeReader rd) (List ℕ)) [
                | none ↦ panic
                | some decoder ↦
                    elim (Any.fill_buffer
                        (take_reader rd)
                        blocks
                        (min n (a.header.original_size - a.output_length))
                        decoder)
                      as (λ x. Outcome (LhaError rd.Error) (LhaDecodeReader rd) (List ℕ)) [
                        | ok target d ↦ ok target (record {
                          header = a.header;
                          crc = Crc.digest a.crc target;
                          output_length =
                              a.output_length + min n (a.header.original_size - a.output_length);
                          decoder = some d;
                        })
                        | err e d ↦ err e (record a { decoder = some d })
                        | panic ↦ panic
                        | out_of_fuel ↦ out_of_fuel
                      ]
              ])
      by_decoder none = tt
      by_decoder (some d) = after d (
          Any.fill_buffer (take_reader rd) blocks (min n (a.header.original_size - a.output_length))
            d)

  -- If the checksum is that of the bytes read so far and no more were read than the header says,
  -- then `crc_check` succeeds exactly when the CRC-16 of these bytes is the one in the header.
  pub crc_check_iff :
      (out : List ℕ) (a : LhaDecodeReader rd)
      → Tracks rd out a
      → (crc_check rd a ≡ ok a.header.file_crc a)
        ↔ (Crc.sum16 (Crc.digest Crc.new_crc out) ≡ a.header.file_crc)
  unfolding crc_check crc_is_ok
  crc_check_iff out a t = rw (← t.checked) (ground arith)

-- For an archive in memory whose reader has a decoder, `next_file_with_sink` with a buffer that is
-- not empty looks for the next header behind the bytes up to the limit of the current file, however
-- many of them were decoded.
pub next_file-slice :
    (buf : ℕ) (a : LhaDecodeReader slice) (d : DecoderAny (take_reader slice))
    → 0 < buf
    → a.decoder ≡ some d
    → let left = Any.into_inner (take_reader slice) d in
      next_file_with_sink slice buf a
      ≡ begin_new slice (drop left.limit left.inner) (record a { decoder = none })
unfolding next_file_with_sink
next_file-slice buf a d hb e =
    let left = Any.into_inner (take_reader slice) d in
    elim (Bool-cases (left.limit == 0)) [
      | inl none_left ↦
          let zero_limit : left.limit ≡ 0 = (==_iff _ _).0 none_left in
          rw (e, next_file_with_sink, none_left, zero_limit) refl
      | inr more ↦ rw (e, next_file_with_sink, more, discard_to_end-slice buf left hb) refl
    ]
