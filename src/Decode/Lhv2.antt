-- ===== src/Decode/Lhv2.antt =====
-- src/decode/lhv2.rs: the decoder of `-lh4-` to `-lh7-` and `-lhx-`. A buffer to fill is given by
-- its length; the bytes written are returned.
pub mod Trees
pub mod Reads
pub mod Blocks
pub mod Total
pub mod Splitting
use rust_delharc.Prelude.{
  ℕ, zero, suc, ◌+◌, ◌-◌, ◌^◌, true, false, Option, none, some, List, [], ◌∷◌, ◌++◌, length, min,
  bit_or, u8, u32, ◌<<<◌, ltb, leb, ◌==◌, if◌then◌else◌,
}
use rust_delharc.Outcome.{ok, out_of_fuel, Prog, ◌>>=◌, ◌>>◌, ret, modify, assert}
use rust_delharc.Error.{LhaError}
use rust_delharc.StubIo.{Read}
use rust_delharc.RingBuf
use rust_delharc.BitStream
use rust_delharc.StaticTree
use rust_delharc.Decode.Target.{while_target, progress_u32}
use Trees.{
  Config, window_size, LhaV2Decoder, on_bits, read_temp_tree, read_command_tree, read_offset_tree,
}

module _ (cfg : Config) (rd : Read) where
  unfoldable pub new : rd.Reader → LhaV2Decoder rd
  new r = record {
    bit_reader = BitStream.new rd r;
    command_tree = StaticTree.with_capacity;
    offset_tree = StaticTree.with_capacity;
    remaining_commands = 0;
    copy_progress = none;
    ringbuf = RingBuf.spaces (window_size cfg);
  }

  unfoldable pub into_inner : LhaV2Decoder rd → rd.Reader
  into_inner d = BitStream.into_inner rd d.bit_reader

  unfoldable pub begin_new_block : Prog (LhaError rd.Error) (LhaV2Decoder rd) (Unit {0})
  begin_new_block = do
    n ← on_bits rd (BitStream.read_bits rd 16 16)
    modify (λ d. record d { remaining_commands = n })
    read_temp_tree rd
    read_command_tree rd
    read_offset_tree cfg rd

  unfoldable pub read_command : Prog (LhaError rd.Error) (LhaV2Decoder rd) ℕ
  read_command d = on_bits rd (StaticTree.read_entry (BitStream.read_bits rd 64 1) d.command_tree) d

  -- `1 << (bits - 1)` overflows at 32 bits.
  unfoldable pub read_offset : Prog (LhaError rd.Error) (LhaV2Decoder rd) ℕ
  read_offset = do
    bits ← λ d. on_bits rd (StaticTree.read_entry (BitStream.read_bits rd 64 1) d.offset_tree) d
    let long : Prog (LhaError rd.Error) (LhaV2Decoder rd) ℕ = do
      res ← on_bits rd (BitStream.read_bits rd 32 (bits - 1))
      assert (ltb (bits - 1) 32)
      ret (bit_or res (1 <<< (bits - 1)))
    if leb bits 1 then ret bits else long

  -- With `room` bytes left in the target.
  unfoldable pub copy_from_history : ℕ → ℕ → ℕ → Prog (LhaError rd.Error) (LhaV2Decoder rd) (List ℕ)
  copy_from_history room offset count d =
      let history_iter = RingBuf.iter_from_offset (window_size cfg) d.ringbuf offset in
      let count_after = count - min room count in
      let (bytes, ringbuf) = RingBuf.copy_history (window_size cfg) (min room count) history_iter in
      ok bytes (record d { copy_progress = progress_u32 offset count_after; ringbuf = ringbuf })

  -- `while self.remaining_commands == 0 { self.begin_new_block()?; }`, for so many blocks.
  unfoldable pub begin_blocks : ℕ → Prog (LhaError rd.Error) (LhaV2Decoder rd) (Unit {0})
  begin_blocks zero d = if d.remaining_commands == 0 then out_of_fuel else ok tt d
  begin_blocks (suc blocks) d = elim (d.remaining_commands == 0) [
    | true ↦ (begin_new_block >> begin_blocks blocks) d
    | false ↦ ok tt d
  ]

  -- The body of the loop of `fill_buffer`; `blocks` bounds the blocks begun for one command.
  unfoldable pub fill_step : ℕ → ℕ → Prog (LhaError rd.Error) (LhaV2Decoder rd) (List ℕ)
  unfolding begin_blocks read_command read_offset copy_from_history
  fill_step blocks room = do
    begin_blocks blocks
    modify (λ d. record d { remaining_commands = d.remaining_commands - 1 })
    code ← read_command
    let literal : Prog (LhaError rd.Error) (LhaV2Decoder rd) (List ℕ) = do
      modify (λ d. record d { ringbuf = RingBuf.push (window_size cfg) d.ringbuf (u8 code) })
      ret (u8 code ∷ [])
    let copy : Prog (LhaError rd.Error) (LhaV2Decoder rd) (List ℕ) = do
      offset ← read_offset
      copy_from_history room offset (code - 0x100 + 3)
    if leb code 0xff then literal else copy

  -- The copy that the last call left unfinished.
  unfoldable pub resume : ℕ → Prog (LhaError rd.Error) (LhaV2Decoder rd) (List ℕ)
  unfolding copy_from_history
  resume buflen d = elim d.copy_progress [
    | some (offset, count) ↦ copy_from_history buflen offset count d
    | none ↦ ok [] d
  ]

  unfoldable pub fill_buffer : ℕ → ℕ → Prog (LhaError rd.Error) (LhaV2Decoder rd) (List ℕ)
  unfolding resume fill_step
  fill_buffer blocks buflen = do
    bytes ← resume buflen
    rest ← while_target (fill_step blocks) buflen (buflen - length bytes)
    ret (bytes ++ rest)
