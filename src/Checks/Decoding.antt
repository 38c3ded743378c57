-- ===== src/Checks/Decoding.antt =====
-- Inputs on which the theorems about the decoders of src/decode/ and src/decode.rs are applied.
use rust_delharc.Prelude.{ℕ, ◌<◌, ◌≡◌, ◌++◌, some, List, [], ◌∷◌, All, arith}
use rust_delharc.Outcome.{Post, Ends, ◌>>=◌, ret}
use rust_delharc.StubIo.{slice, Take, take_reader}
use rust_delharc.StubIo.Laws.{IsReader, slice-IsReader, take-IsReader}
use rust_delharc.Crc
use rust_delharc.Header.Types.{default_header}
use rust_delharc.Decode.Filling.{Filled}
use rust_delharc.Decode.Lzs
use rust_delharc.Decode.Lzs.Total
use rust_delharc.Decode.Lzs.Total.{new-IsLzs}
use rust_delharc.Decode.Lzs.Splitting.{lzs_fill_buffer-split}
use rust_delharc.Decode.Lz5
use rust_delharc.Decode.Lz5.Total.{IsLz5, new-IsLz5, fill_buffer-Post}
use rust_delharc.Decode.Lhv2
use rust_delharc.Decode.Lhv2.Trees.{lh5_config}
use rust_delharc.Decode.Lhv2.Total.{IsLhv2, HasCount, lh5-IsConfig, new-IsLhv2}
use rust_delharc.Decode.Lhv2.Splitting.{fill_buffer-split}
use rust_delharc.Decode.Any.{lh5_decoder}
use rust_delharc.Decode.Archive.{LhaDecodeReader, begin_new}
use rust_delharc.Decode.Archive.Total.{IsBegun, begin_new-IsBegun}

abbrev text : List ℕ
text = b'a' ∷ b'b' ∷ b'c' ∷ []

text-bytes : All (λ b. b < 256) text
text-bytes = (omega arith, (omega arith, (omega arith, tt)))

-- A file of two bytes in an archive of three.
abbrev file : Take slice
file = record { limit = 2; inner = text }

abbrev laws : IsReader (take_reader slice)
laws = take-IsReader slice slice-IsReader

lh5-fit :
    IsLhv2
      (take_reader slice)
      laws
      lh5_config
      lh5-IsConfig
      16
      (Lhv2.new lh5_config (take_reader slice) file)
lh5-fit = new-IsLhv2 (take_reader slice) laws lh5_config lh5-IsConfig file text-bytes

fill_buffer-Post_example :
    Post
      (Filled (IsLz5 slice slice-IsReader) 4)
      (IsLz5 slice slice-IsReader)
      (Lz5.fill_buffer slice 4 (Lz5.new slice text))
fill_buffer-Post_example =
    fill_buffer-Post slice slice-IsReader 4 (Lz5.new slice text)
      (new-IsLz5 slice slice-IsReader text text-bytes)

-- A reader of an archive with that file.
abbrev archive : LhaDecodeReader slice
archive = record {
  header = record default_header { original_size = 5; compressed_size = 2 };
  crc = Crc.new_crc;
  output_length = 1;
  decoder = some (lh5_decoder (Lhv2.new lh5_config (take_reader slice) file));
}

begin_new-IsBegun_example :
    Ends (λ more a. IsBegun slice slice-IsReader a) (λ a. Unit) (begin_new slice text archive)
begin_new-IsBegun_example = begin_new-IsBegun slice slice-IsReader text archive text-bytes

new-HasCount :
    HasCount
      (take_reader slice)
      laws
      lh5_config
      lh5-IsConfig
      (Lhv2.new lh5_config (take_reader slice) file)
unfolding Lhv2.new
new-HasCount offset count e = cc

-- A buffer of four bytes, and two buffers of one byte and of three.
fill_buffer-split_example :
    Lhv2.fill_buffer lh5_config
      (take_reader slice)
      2
      4
      (Lhv2.new lh5_config (take_reader slice) file)
    ≡ (do
      first ← Lhv2.fill_buffer lh5_config (take_reader slice) 2 1
      second ← Lhv2.fill_buffer lh5_config (take_reader slice) 2 3
      ret (first ++ second))
        (Lhv2.new lh5_config (take_reader slice) file)
fill_buffer-split_example =
    fill_buffer-split (take_reader slice) laws lh5_config lh5-IsConfig 2 16 (omega arith) 1 3
      (Lhv2.new lh5_config (take_reader slice) file) lh5-fit new-HasCount

lzs_new-HasCount : Total.HasCount slice slice-IsReader 24 (Lzs.new slice text)
unfolding Lzs.new
lzs_new-HasCount pos count e = cc

lzs_fill_buffer-split_example :
    Lzs.fill_buffer slice 5 (Lzs.new slice text)
    ≡ (do first ← Lzs.fill_buffer slice 2; second ← Lzs.fill_buffer slice 3; ret (first ++ second))
        (Lzs.new slice text)
lzs_fill_buffer-split_example =
    lzs_fill_buffer-split slice slice-IsReader 24 2 3 (Lzs.new slice text)
      (new-IsLzs slice slice-IsReader text text-bytes) lzs_new-HasCount
