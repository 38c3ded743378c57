-- ===== src/Decode/Lz5.antt =====
-- src/decode/lz5.rs: the decoder of `-lz5-`. A buffer to fill is given by its length; the bytes
-- written are returned.
pub mod Total
use rust_delharc.Prelude.{
  ℕ, zero, suc, ◌+◌, ◌-◌, ◌^◌, Option, none, some, List, [], ◌∷◌, ◌++◌, reverse, length, replicate,
  get_or, min, bit_and, bit_or, ◌<<<◌, ◌>>>◌, ◌==◌, if◌then◌else◌,
}
use mathlib.Core.List.{flat_map}
use rust_delharc.Outcome.{ok, err, panic, out_of_fuel, Prog, ◌>>=◌, ◌>>◌, ret, modify, within}
use rust_delharc.Error.{LhaError, map_io}
use rust_delharc.StubIo.{Read}
use rust_delharc.RingBuf
use rust_delharc.RingBuf.{RingArrayBuf}
use rust_delharc.Decode.Target.{while_target, progress_u16}

abbrev pub ring_buffer_size : ℕ
ring_buffer_size = 4096

-- `-18_isize as usize`
abbrev pub start_offset : ℕ
start_offset = 2 ^ 64 - 18

-- `struct Lz5Decoder<R>`
pub record Lz5Decoder (rd : Read) : Type 0 where
  pub reader : rd.Reader
  pub bitmap : ℕ
  pub copy_progress : Option (ℕ × ℕ)
  pub ringbuf : RingArrayBuf

-- `n` numbers, from `i` up: `i..i + n`.
pub ascending : ℕ → ℕ → List ℕ
ascending i zero = []
ascending i (suc n) = i ∷ ascending (i + 1) n

repeat_13 : ℕ → List ℕ
repeat_13 i = replicate 13 i

-- The bytes that `new` pushes before the gap, in order.
unfoldable pub preset : List ℕ
unfolding ascending repeat_13
preset =
    flat_map repeat_13 (ascending 0 256)
    ++ (ascending 0 256 ++ (reverse (ascending 0 256) ++ replicate 128 0))

-- `while ringbuf.cursor() != 0 { ringbuf.push(0); }`: at most a buffer's length of rounds.
unfoldable pub zero_margin : ℕ → RingArrayBuf → RingArrayBuf
zero_margin zero r = r
zero_margin (suc fuel) r =
    let more = zero_margin fuel (RingBuf.push ring_buffer_size r 0) in
    if r.cursor == 0 then r else more

unfoldable pub initial_ringbuf : RingArrayBuf
unfolding preset zero_margin
initial_ringbuf =
    let filled = RingBuf.push_all ring_buffer_size (RingBuf.spaces ring_buffer_size) preset in
    let gap = RingBuf.set_cursor ring_buffer_size filled start_offset in
    RingBuf.set_cursor ring_buffer_size (zero_margin ring_buffer_size gap) start_offset

module _ (rd : Read) where
  unfoldable pub new : rd.Reader → Lz5Decoder rd
  new r = record { reader = r; bitmap = 1; copy_progress = none; ringbuf = initial_ringbuf }

  unfoldable pub into_inner : Lz5Decoder rd → rd.Reader
  into_inner d = d.reader

  -- `self.reader.read_exact(buf).map_err(LhaError::Io)?`. The loop's own `bitmap` stands beside the
  -- decoder.
  abbrev read : ℕ → Prog (LhaError rd.Error) (Lz5Decoder rd × ℕ) (List ℕ)
  read n =
      within (λ s. s.0.reader) (λ s r. (record s.0 { reader = r }, s.1)) (map_io (rd.read_exact n))

  -- With `room` bytes left in the target.
  unfoldable pub copy_from_history : ℕ → ℕ → ℕ → Lz5Decoder rd → List ℕ × Lz5Decoder rd
  copy_from_history room pos count d =
      let real_count = min room count in
      let history_iter = RingBuf.iter_from_pos ring_buffer_size d.ringbuf pos in
      let (bytes, ringbuf) = RingBuf.copy_history ring_buffer_size real_count history_iter in
      (
        bytes,
        record d {
          copy_progress = progress_u16 (pos + real_count) (count - real_count);
          ringbuf = ringbuf;
        },
      )

  -- Eight more flags, below a one that marks their end.
  unfoldable pub next_bitmap : Prog (LhaError rd.Error) (Lz5Decoder rd × ℕ) (Unit {0})
  next_bitmap s =
      let load : Prog (LhaError rd.Error) (Lz5Decoder rd × ℕ) (Unit {0}) =
        read 1 >>= λ byte. modify (λ s'. (s'.0, bit_or (get_or byte 0 0) 0x0100)) in
      if s.1 == 1 then load s else ok tt s

  -- A literal, and a copy; `cmd` is `[lo, hi]`.
  unfoldable pub literal : Prog (LhaError rd.Error) (Lz5Decoder rd × ℕ) (List ℕ)
  literal = do
    value ← read 1
    let byte = get_or value 0 0
    modify (λ s. (record s.0 { ringbuf = RingBuf.push ring_buffer_size s.0.ringbuf byte }, s.1))
    ret (byte ∷ [])

  unfoldable pub copy : ℕ → Prog (LhaError rd.Error) (Lz5Decoder rd × ℕ) (List ℕ)
  unfolding copy_from_history
  copy room = do
    cmd ← read 2
    let lo = get_or cmd 0 0
    let hi = get_or cmd 1 0
    let pos = bit_or (bit_and hi 0xf0 <<< 4) lo
    let count = bit_and hi 0x0f
    λ s. let (bytes, d) = copy_from_history room pos (count + 3) s.0 in ok bytes (d, s.1)

  -- The body of the loop of `fill_buffer`.
  unfoldable pub fill_step : ℕ → Prog (LhaError rd.Error) (Lz5Decoder rd × ℕ) (List ℕ)
  unfolding next_bitmap literal copy
  fill_step room = do
    next_bitmap
    bytes ← λ s. if bit_and s.1 1 == 1 then literal s else copy room s
    modify (λ s. (s.0, s.1 >>> 1))
    ret bytes

  -- The copy that the last call left unfinished.
  unfoldable pub resume : ℕ → Lz5Decoder rd → List ℕ × Lz5Decoder rd
  unfolding copy_from_history
  resume buflen d = elim d.copy_progress [
    | some (pos, count) ↦ copy_from_history buflen pos count d
    | none ↦ ([], d)
  ]

  -- `self.bitmap` is set only when the loop ends well.
  unfoldable pub fill_buffer : ℕ → Prog (LhaError rd.Error) (Lz5Decoder rd) (List ℕ)
  unfolding resume fill_step
  fill_buffer buflen d =
      let (bytes, d') = resume buflen d in
      elim (while_target fill_step buflen (buflen - length bytes) (d', d'.bitmap)) [
        | ok rest (d'', bitmap) ↦ ok (bytes ++ rest) (record d'' { bitmap = bitmap })
        | err e (d'', bitmap) ↦ err e d''
        | panic ↦ panic
        | out_of_fuel ↦ out_of_fuel
      ]
