-- ===== src/Checks.antt =====
-- Concrete inputs on which the theorems about src/ are applied, with the tests that their
-- hypotheses need.
mod Decoding
mod Headers
mod Trees
use rust_delharc.Prelude.{
  ℕ, ◌+◌, ◌%◌, ◌^◌, ◌≤◌, ◌<◌, ◌≡◌, refl, sym, ◌↔◌, none, some, List, [], ◌∷◌, ◌++◌, take, All,
  String, arith,
}
use rust_delharc.Outcome.{ok, err, Prog, Keeps, Post}
use rust_delharc.StubIo.{slice, Take, take_reader}
use rust_delharc.StubIo.Slice
use rust_delharc.StubIo.Limit
use rust_delharc.StubIo.Trait.{default_read_exact}
use rust_delharc.StubIo.Discard.{discard_to_end}
use rust_delharc.StubIo.Slices.{read_exact-default, take_read_all, discard_to_end-slice}
use rust_delharc.Crc
use rust_delharc.Crc.{Crc16}
use rust_delharc.Crc.Bitwise.{register, digest-eq-register, digest-append, digest-nil}
use rust_delharc.RingBuf
use rust_delharc.RingBuf.{RingArrayBuf}
use rust_delharc.RingBuf.Window
use rust_delharc.RingBuf.Window.{window-push}
use rust_delharc.RingBuf.Copy.{copy_window, iter_from_offset_refines, iter_from_pos_refines}
use rust_delharc.RingBuf.Default.{default-IsValid}
use rust_delharc.StaticTree.{HuffTree, built, with_capacity, build_tree, read_entry}
use rust_delharc.StaticTree.Entry.{leaf, branch, new_leaf, new_branch, as_type, max_index}
use rust_delharc.StaticTree.Nodes.{Entry_round_trip}
use rust_delharc.StaticTree.Safety.{IsWhole, build_tree-IsWhole}
use rust_delharc.StaticTree.Walk.{read_entry-Safe}
use rust_delharc.Header.Types.{default_header}
use rust_delharc.Header.Compression
use rust_delharc.Header.Compression.{lh5, as_identifier}
use rust_delharc.Header.OsTypes
use rust_delharc.Header.OsTypes.{unix, to_u8}
use rust_delharc.Header.Codes.{OsType-iff, CompressionMethod-iff}
use rust_delharc.Decode.Any
use rust_delharc.Decode.Any.{passthrough_decoder}
use rust_delharc.Decode.Lhv1.{decode_offset}
use rust_delharc.Decode.Lhv1.Offsets.{offset_after, decode_offset_lem}
use rust_delharc.Decode.Archive.{LhaDecodeReader, read, crc_check, begin_new, next_file_with_sink}
use rust_delharc.Decode.Archive.Invariant.{
  Tracks, ReadTracks, read-Tracks, crc_check_iff, next_file-slice,
}
use rust_delharc.Error.{io}
use rust_delharc.StubIo.Slice.{unexpected_eof_error}
use rust_delharc.BitStream
use rust_delharc.BitStream.{BitStream}
use rust_delharc.BitStream.Refill.{be}
use rust_delharc.BitStream.Refine.{Holds, count, value, next_bits-ended}
use rust_delharc.BitStream.Stream.{Took, next_bits-Took}
use rust_delharc.BitStream.Total.{HasBits, Taken, new-HasBits, read_bits-Taken}
use rust_delharc.StubIo.Laws.{IsReader, slice-IsReader, take-IsReader}
use rust_delharc.Decode.Filling.{Filled}
use rust_delharc.StaticTree.Stream.{read_entry-built}
use rust_delharc.Decode.Lzs
use rust_delharc.Decode.Lzs.Total.{IsLzs, new-IsLzs, fill_buffer-Keeps}

abbrev text : List ℕ
text = b'a' ∷ b'b' ∷ b'c' ∷ []

text-bytes : All (λ b. b < 256) text
text-bytes = (omega arith, (omega arith, (omega arith, tt)))

digest-eq-register_example : Crc.digest Crc.new_crc text ≡ record { sum = register 0 text }
digest-eq-register_example = digest-eq-register Crc.new_crc text text-bytes

-- A tree of three leaves.
abbrev lens : List ℕ
lens = 1 ∷ 2 ∷ 2 ∷ []

abbrev three : HuffTree
three = record { tree = 1 ∷ 0x8000 ∷ 3 ∷ 0x8001 ∷ 0x8002 ∷ [] }

three-built : build_tree with_capacity lens ≡ built three
unfolding build_tree
three-built = refl

build_tree-IsWhole_example : IsWhole 3 three.tree
build_tree-IsWhole_example = build_tree-IsWhole with_capacity lens three-built

-- A source of bits that ends with an error.
abbrev next_bit : Prog String (List ℕ) ℕ
next_bit [] = err "end" []
next_bit (b ∷ bs) = ok b bs

abbrev AreBits : List ℕ → Type 0
AreBits bs = All (λ b. b < 2) bs

next_bit-Keeps : (bs : List ℕ) → AreBits bs → Keeps AreBits (λ b. b < 2) (next_bit bs)
next_bit-Keeps [] h = tt
next_bit-Keeps (b ∷ bs) (h, hs) = (h, hs)

read_entry-Safe_example : Keeps AreBits (λ v. v < 3) (read_entry next_bit three (1 ∷ 0 ∷ 1 ∷ []))
read_entry-Safe_example =
    read_entry-Safe 3 AreBits next_bit next_bit-Keeps three build_tree-IsWhole_example
      (1 ∷ 0 ∷ 1 ∷ []) (omega arith, (omega arith, (omega arith, tt)))

Entry_round_trip_example :
    (5 ≤ max_index → as_type (new_leaf 5) ≡ leaf 5)
    × (5 ≤ max_index → (new_branch 5 ≡ some 5) × (as_type 5 ≡ branch 5))
    × (max_index < 5 → new_branch 5 ≡ none)
Entry_round_trip_example = Entry_round_trip 5

-- A window of eight bytes.
abbrev ring : RingArrayBuf
ring = record { buffer = 1 ∷ 2 ∷ 3 ∷ 4 ∷ 5 ∷ 6 ∷ 7 ∷ 8 ∷ []; cursor = 2 }

ring-IsValid : Window.IsValid 3 ring
ring-IsValid = record { full = refl; inside = omega arith }

default-IsValid_example :
    (RingBuf.default 8 ≡ some (RingBuf.spaces 8)) × Window.IsValid 3 (RingBuf.spaces 8)
default-IsValid_example = default-IsValid 3

window-push_example : Window.window 3 (RingBuf.push 8 ring 9) ≡ 9 ∷ take 7 (Window.window 3 ring)
window-push_example = window-push 3 ring 9 ring-IsValid

iter_from_offset_refines_example :
    let (bytes, r') = RingBuf.copy_history 8 3 (RingBuf.iter_from_offset 8 ring 1) in
    let (bytes', w) = copy_window 1 3 (Window.window 3 ring) in
    (bytes ≡ bytes') × (Window.window 3 r' ≡ w) × Window.IsValid 3 r'
iter_from_offset_refines_example = iter_from_offset_refines 3 (omega arith) ring ring-IsValid 3 1

iter_from_pos_refines_example :
    let (bytes, r') = RingBuf.copy_history 8 3 (RingBuf.iter_from_pos 8 ring 7) in
    let (bytes', w) = copy_window (Window.back 3 2 7) 3 (Window.window 3 ring) in
    (bytes ≡ bytes') × (Window.window 3 r' ≡ w) × Window.IsValid 3 r'
iter_from_pos_refines_example = iter_from_pos_refines 3 (omega arith) ring ring-IsValid 3 7

-- A file of two bytes in front of another byte.
abbrev file : Take slice
file = record { limit = 2; inner = text }

read_exact-default_example :
    Slice.read_exact 2 text ≡ default_read_exact Slice.unexpected_eof_error Slice.read_all 2 text
read_exact-default_example = read_exact-default 2 text (omega arith)

take_read_all_example :
    Limit.read_all slice 8 file ≡ ok (b'a' ∷ b'b' ∷ []) (record { limit = 0; inner = b'c' ∷ [] })
take_read_all_example = take_read_all 8 file

discard_to_end-slice_example :
    discard_to_end (take_reader slice) 3 1 file ≡ ok tt (record { limit = 0; inner = b'c' ∷ [] })
discard_to_end-slice_example = discard_to_end-slice 1 file (omega arith)

OsType-iff_example : (OsTypes.try_from b'U' ≡ some unix) ↔ (to_u8 unix ≡ b'U')
OsType-iff_example = OsType-iff b'U' unix

CompressionMethod-iff_example :
    (Compression.try_from (as_identifier lh5) ≡ some lh5) ↔ (as_identifier lh5 ≡ as_identifier lh5)
CompressionMethod-iff_example = CompressionMethod-iff (as_identifier lh5) lh5

decode_offset_example :
    (offset : ℕ) × (bits : ℕ) × (decode_offset 511 ≡ some (offset, bits))
    × (bits ≤ 5)
    × (offset % 2 ^ bits ≡ 0)
    × (offset + 2 ^ bits ≡ offset_after 511)
decode_offset_example = decode_offset_lem 511 (omega arith)

-- A reader of an archive whose file is stored.
abbrev archive : LhaDecodeReader slice
archive = record {
  header = record default_header { original_size = 2 };
  crc = Crc.new_crc;
  output_length = 0;
  decoder = some (passthrough_decoder file);
}

archive-Tracks : Tracks slice [] archive
archive-Tracks = record { checked = sym (digest-nil Crc.new_crc); bounded = omega arith }

read-Tracks_example : ReadTracks slice [] archive 1 (read slice 0 1 archive)
read-Tracks_example = read-Tracks slice 0 1 [] archive archive-Tracks

crc_check_iff_example :
    (crc_check slice archive ≡ ok 0 archive)
    ↔ (Crc.sum16 (Crc.digest Crc.new_crc []) ≡ archive.header.file_crc)
crc_check_iff_example = crc_check_iff slice [] archive archive-Tracks

next_file-slice_example :
    next_file_with_sink slice 16 archive
    ≡ begin_new slice (b'c' ∷ []) (record archive { decoder = none })
unfolding Any.into_inner
next_file-slice_example = next_file-slice 16 archive (passthrough_decoder file) (omega arith) refl

-- A stream over three bytes.
abbrev stream : BitStream slice
stream = BitStream.new slice text

stream-Holds : Holds stream 0 0
unfolding BitStream.new
stream-Holds = record { word = refl; room = omega arith; small = omega arith; bytes = text-bytes }

next_bits-Took_example : Took stream (value stream 0) (count stream 0) 5
unfolding BitStream.new
next_bits-Took_example =
    next_bits-Took stream 0 0 5 stream-Holds (omega arith) (omega arith) (omega arith)

next_bits-ended_example :
    BitStream.next_bits slice 25 stream
    ≡ err (io unexpected_eof_error) (record { inner = []; bits_buf = stream.bits_buf })
unfolding BitStream.new
next_bits-ended_example =
    next_bits-ended stream 0 0 25 stream-Holds (omega arith) (omega arith) (omega arith)

stream-HasBits : HasBits slice slice-IsReader 24 stream
stream-HasBits = new-HasBits slice slice-IsReader text text-bytes

read_bits-Taken_example :
    Post
      (Taken slice slice-IsReader 24 9)
      (HasBits slice slice-IsReader 24)
      (BitStream.read_bits slice 16 9 stream)
read_bits-Taken_example =
    read_bits-Taken slice slice-IsReader 16 9 24 stream (omega arith) (omega arith) stream-HasBits

read_entry-built_example :
    Post
      (λ code s. (code < 3) × HasBits slice slice-IsReader 24 s)
      (HasBits slice slice-IsReader 24)
      (read_entry (BitStream.read_bits slice 64 1) three stream)
read_entry-built_example =
    read_entry-built slice slice-IsReader with_capacity three lens three-built 24 stream
      stream-HasBits
