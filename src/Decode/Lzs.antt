-- ===== src/Decode/Lzs.antt =====
-- src/decode/lzs.rs: the decoder of `-lzs-`. A buffer to fill is given by its length; the bytes
-- written are returned.
pub mod Total
pub mod Splitting
use rust_delharc.Prelude.{
  ℕ, ◌+◌, ◌-◌, ◌^◌, true, false, Option, none, some, List, [], ◌∷◌, ◌++◌, length, min,
}
use rust_delharc.Outcome.{Prog, ◌>>=◌, ◌>>◌, ret, modify, within}
use rust_delharc.Error.{LhaError}
use rust_delharc.StubIo.{Read}
use rust_delharc.RingBuf
use rust_delharc.RingBuf.{RingArrayBuf}
use rust_delharc.BitStream
use rust_delharc.BitStream.{BitStream}
use rust_delharc.Decode.Target.{while_target, progress_u16}

abbrev pub ring_buffer_size : ℕ
ring_buffer_size = 2048

-- `-17_isize as usize`
abbrev pub start_offset : ℕ
start_offset = 2 ^ 64 - 17

-- `struct LzsDecoder<R>`
pub record LzsDecoder (rd : Read) : Type 0 where
  pub bit_reader : BitStream rd
  pub copy_progress : Option (ℕ × ℕ)
  pub ringbuf : RingArrayBuf

module _ (rd : Read) where
  unfoldable pub new : rd.Reader → LzsDecoder rd
  new r = record {
    bit_reader = BitStream.new rd r;
    copy_progress = none;
    ringbuf = RingBuf.set_cursor ring_buffer_size (RingBuf.spaces ring_buffer_size) start_offset;
  }

  unfoldable pub into_inner : LzsDecoder rd → rd.Reader
  into_inner d = BitStream.into_inner rd d.bit_reader

  -- A call on `self.bit_reader`.
  abbrev on_bits :
      {A : Type 0}
      → Prog (LhaError rd.Error) (BitStream rd) A
      → Prog (LhaError rd.Error) (LzsDecoder rd) A
  on_bits = within (λ d. d.bit_reader) (λ d b. record d { bit_reader = b })

  -- With `room` bytes left in the target.
  unfoldable pub copy_from_history : ℕ → ℕ → ℕ → Prog (LhaError rd.Error) (LzsDecoder rd) (List ℕ)
  copy_from_history room pos count d =
      let real_count = min room count in
      let history_iter = RingBuf.iter_from_pos ring_buffer_size d.ringbuf pos in
      let (bytes, ringbuf) = RingBuf.copy_history ring_buffer_size real_count history_iter in
      ret bytes (record d {
        copy_progress = progress_u16 (pos + real_count) (count - real_count);
        ringbuf = ringbuf;
      })

  -- The body of the loop of `fill_buffer`.
  unfoldable pub fill_step : ℕ → Prog (LhaError rd.Error) (LzsDecoder rd) (List ℕ)
  unfolding copy_from_history
  fill_step room = do
    bit ← on_bits (BitStream.read_bit rd)
    elim bit [
      | true ↦ do
        value ← on_bits (BitStream.read_bits rd 8 8)
        modify (λ d. record d { ringbuf = RingBuf.push ring_buffer_size d.ringbuf value })
        ret (value ∷ [])
      | false ↦ do
        pos ← on_bits (BitStream.read_bits rd 64 11)
        count ← on_bits (BitStream.read_bits rd 64 4)
        copy_from_history room pos (count + 2)
    ]

  -- The copy that the last call left unfinished.
  unfoldable pub resume : ℕ → Prog (LhaError rd.Error) (LzsDecoder rd) (List ℕ)
  unfolding copy_from_history
  resume buflen d = elim d.copy_progress [
    | some (pos, count) ↦ copy_from_history buflen pos count d
    | none ↦ ret [] d
  ]

  unfoldable pub fill_buffer : ℕ → Prog (LhaError rd.Error) (LzsDecoder rd) (List ℕ)
  unfolding resume fill_step
  fill_buffer buflen = do
    bytes ← resume buflen
    rest ← while_target fill_step buflen (buflen - length bytes)
    ret (bytes ++ rest)
