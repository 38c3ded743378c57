-- ===== src/Decode/Lhv1.antt =====
-- src/decode/lhv1.rs: the decoder of `-lh1-`. A buffer to fill is given by its length; the bytes
-- written are returned.
pub mod Nodes
pub mod Build
pub mod DynTree
pub mod Offsets
pub mod Links
pub mod Swap
pub mod Promote
pub mod Ranks
pub mod Grow
pub mod Grown
pub mod Tree
use rust_delharc.Prelude.{
  ℕ, ◌+◌, ◌-◌, ◌^◌, ◌&&◌, Option, none, some, List, [], ◌∷◌, ◌++◌, length, min, bit_and, bit_or, u8,
  u16, ◌<<<◌, leb, if◌then◌else◌,
}
use rust_delharc.Outcome.{
  ok, err, panic, out_of_fuel, Outcome, Prog, ◌>>=◌, ◌>>◌, ret, modify, within, crash,
}
use rust_delharc.Error.{LhaError}
use rust_delharc.StubIo.{Read}
use rust_delharc.RingBuf
use rust_delharc.RingBuf.{RingArrayBuf}
use rust_delharc.BitStream
use rust_delharc.BitStream.{BitStream}
use rust_delharc.Decode.Target.{while_target, progress_u16}
use Nodes.{DynHuffTree}
use Build
use DynTree

abbrev pub ring_buffer_size : ℕ
ring_buffer_size = 4096

-- `struct Lh1Decoder<R>`
pub record Lh1Decoder (rd : Read) : Type 0 where
  pub bit_reader : BitStream rd
  pub command_tree : DynHuffTree
  pub copy_progress : Option (ℕ × ℕ)
  pub ringbuf : RingArrayBuf

-- `decode_offset`: the upper bits of an offset, and how many more are to be read; `none` is
-- `unreachable!()`.
unfoldable pub decode_offset : ℕ → Option (ℕ × ℕ)
decode_offset bits9 =
    let p = bit_and bits9 0b111100000 in
    if leb p 0b000111111
    then some (bits9, 0)
    else if leb 0b001000000 p && leb p 0b010011111
    then some (bits9 - 0b000100000 <<< 1, 1)
    else if leb 0b010100000 p && leb p 0b100011111
    then some (bits9 - 0b001100000 <<< 2, 2)
    else if leb 0b100100000 p && leb p 0b101111111
    then some (bits9 - 0b011000000 <<< 3, 3)
    else if leb 0b110000000 p && leb p 0b111011111
    then some (bits9 - 0b100100000 <<< 4, 4)
    else if leb 0b111100000 p && leb p 0b111111111
    then some (bits9 - 0b110000000 <<< 5, 5)
    else none

module _ (rd : Read) where
  -- `new`, where the tree that it begins with is built.
  unfoldable pub new : rd.Reader → Outcome (LhaError rd.Error) (Lh1Decoder rd) (Unit {0})
  new r = elim (Build.new {E = LhaError rd.Error}) [
    | ok _ tree ↦ ok tt (record {
      bit_reader = BitStream.new rd r;
      command_tree = tree;
      copy_progress = none;
      ringbuf = RingBuf.spaces ring_buffer_size;
    })
    | err e tree ↦ panic
    | panic ↦ panic
    | out_of_fuel ↦ out_of_fuel
  ]

  unfoldable pub into_inner : Lh1Decoder rd → rd.Reader
  into_inner d = BitStream.into_inner rd d.bit_reader

  -- A call on `self.bit_reader`.
  abbrev on_bits :
      {A : Type 0}
      → Prog (LhaError rd.Error) (BitStream rd) A
      → Prog (LhaError rd.Error) (Lh1Decoder rd) A
  on_bits = within (λ d. d.bit_reader) (λ d b. record d { bit_reader = b })

  unfoldable pub read_command : Prog (LhaError rd.Error) (Lh1Decoder rd) ℕ
  read_command =
      within (λ d. (d.command_tree, d.bit_reader))
        (λ d s. record d { command_tree = s.0; bit_reader = s.1 })
        (DynTree.read_entry (BitStream.read_bits rd 64 1))

  unfoldable pub read_offset : Prog (LhaError rd.Error) (Lh1Decoder rd) ℕ
  read_offset = do
    bits9 ← on_bits (BitStream.read_bits rd 16 9)
    elim (decode_offset bits9) [
      | some (offset, bits) ↦ do
        more ← on_bits (BitStream.read_bits rd 16 bits)
        ret (bit_or offset more)
      | none ↦ crash
    ]

  -- With `room` bytes left in the target.
  unfoldable pub copy_from_history : ℕ → ℕ → ℕ → Prog (LhaError rd.Error) (Lh1Decoder rd) (List ℕ)
  copy_from_history room offset count d =
      let history_iter = RingBuf.iter_from_offset ring_buffer_size d.ringbuf offset in
      let count_after = count - min room count in
      let (bytes, ringbuf) = RingBuf.copy_history ring_buffer_size (min room count) history_iter in
      ok bytes (record d { copy_progress = progress_u16 offset count_after; ringbuf = ringbuf })

  -- The body of the loop of `fill_buffer`.
  unfoldable pub fill_step : ℕ → Prog (LhaError rd.Error) (Lh1Decoder rd) (List ℕ)
  unfolding read_command read_offset copy_from_history
  fill_step room = do
    code ← read_command
    let literal : Prog (LhaError rd.Error) (Lh1Decoder rd) (List ℕ) = do
      modify (λ d. record d { ringbuf = RingBuf.push ring_buffer_size d.ringbuf (u8 code) })
      ret (u8 code ∷ [])
    let copy : Prog (LhaError rd.Error) (Lh1Decoder rd) (List ℕ) = do
      offset ← read_offset
      copy_from_history room offset (code - 0x100 + 3)
    if leb code 0xff then literal else copy

  -- The copy that the last call left unfinished.
  unfoldable pub resume : ℕ → Prog (LhaError rd.Error) (Lh1Decoder rd) (List ℕ)
  unfolding copy_from_history
  resume buflen d = elim d.copy_progress [
    | some (offset, count) ↦ copy_from_history buflen offset count d
    | none ↦ ok [] d
  ]

  unfoldable pub fill_buffer : ℕ → Prog (LhaError rd.Error) (Lh1Decoder rd) (List ℕ)
  unfolding resume fill_step
  fill_buffer buflen = do
    bytes ← resume buflen
    rest ← while_target fill_step buflen (buflen - length bytes)
    ret (bytes ++ rest)
