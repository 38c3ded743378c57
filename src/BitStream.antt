-- ===== src/BitStream.antt =====
-- src/bitstream.rs: bits from a reader, highest bit of each byte first. `usize` has 64 bits.
pub mod Marker
pub mod Refill
pub mod Word
pub mod Refine
pub mod Stream
pub mod Total
use rust_delharc.Prelude.{
  ℕ, zero, suc, ◌+◌, ◌-◌, ◌*◌, ◌/◌, ◌%◌, ◌^◌, Bool, not, ◌||◌, List, [], ◌∷◌, ◌++◌, length,
  replicate, bit_and, bit_or, u64, ◌<<<◌, ◌>>>◌, ltb, leb, ◌==◌, if◌then◌else◌,
}
use rust_delharc.Outcome.{Outcome, ok, err, panic, out_of_fuel, Prog, ◌>>=◌, ret, fail}
use rust_delharc.Error.{LhaError, io, decompress}
use rust_delharc.StubIo.{Read}

abbrev pub bitbuf_bytesize : ℕ
bitbuf_bytesize = 8

abbrev pub bitbuf_bitsize : ℕ
bitbuf_bitsize = 64

-- `struct BitStream<R>`: the bits that are not read yet, from the highest one on, a one after
-- them, and zeros.
pub record BitStream (rd : Read) : Type 0 where
  pub inner : rd.Reader
  pub bits_buf : ℕ

-- `usize::trailing_zeros`, for a word of the given width.
pub trailing_zeros : ℕ → ℕ → ℕ
trailing_zeros zero x = 0
trailing_zeros (suc w) x =
    let more = suc (trailing_zeros w (x / 2)) in if x % 2 == 1 then 0 else more

-- `usize::from_be_bytes`
unfoldable pub from_be_bytes : ℕ → List ℕ → ℕ
from_be_bytes acc [] = acc
from_be_bytes acc (b ∷ bs) = from_be_bytes (acc * 256 + b) bs

-- The array `buf` after `read_all` has written `bytes` to its front.
abbrev pub padded : List ℕ → List ℕ
padded bytes = bytes ++ replicate (bitbuf_bytesize - length bytes) 0

module _ (rd : Read) where
  unfoldable pub new : rd.Reader → BitStream rd
  new inner = record { inner = inner; bits_buf = 1 <<< (bitbuf_bitsize - 1) }

  unfoldable pub into_inner : BitStream rd → rd.Reader
  into_inner s = s.inner

  -- What `next_bits` returns and leaves once `buf` is filled; `res` holds the bits of the old
  -- buffer and `missing_bits` more are wanted of the bytes just read.
  pub refill : ℕ → ℕ → List ℕ → rd.Reader → Prog (LhaError rd.Error) (BitStream rd) ℕ
  unfolding from_be_bytes
  refill res missing_bits bytes r s =
      let bits_read = 8 * length bytes in
      let new_bits = from_be_bytes 0 (padded bytes) in
      let res' = bit_or (bit_and res (res - 1)) (new_bits >>> (bitbuf_bitsize - missing_bits)) in
      let kept = if missing_bits == bitbuf_bitsize then 0 else u64 (new_bits <<< missing_bits) in
      let mark = 1 <<< (bitbuf_bitsize - 1 - (bits_read - missing_bits)) in
      if ltb bits_read missing_bits
      then err (io rd.unexpected_eof) (record { inner = r; bits_buf = s.bits_buf })
      else if res == 0
      then panic
      else ok res' (record { inner = r; bits_buf = bit_or kept mark })

  -- A call with no bits or too many fails the `debug_assert!`; an empty `bits_buf` (which
  -- `BitStream.Total` rules out) overflows the subtraction that gives `have_bits`.
  unfoldable pub next_bits : ℕ → Prog (LhaError rd.Error) (BitStream rd) ℕ
  unfolding refill trailing_zeros
  next_bits n s =
      let zeros = trailing_zeros bitbuf_bitsize s.bits_buf in
      let have_bits = bitbuf_bitsize - zeros - 1 in
      let res = s.bits_buf >>> (bitbuf_bitsize - n) in
      let more : Outcome (LhaError rd.Error) (BitStream rd) ℕ =
        elim (rd.read_all bitbuf_bytesize s.inner) [
          | ok bytes r ↦ refill res (n - have_bits) bytes r s
          | err e r ↦ err (io e) (record { inner = r; bits_buf = s.bits_buf })
          | panic ↦ panic
          | out_of_fuel ↦ out_of_fuel
        ] in
      if n == 0 || ltb bitbuf_bitsize n || leb bitbuf_bitsize zeros
      then panic
      else if leb n have_bits
      then ok res (record { inner = s.inner; bits_buf = u64 (s.bits_buf <<< n) })
      else more

  -- `read_bit`; the `bool` is kept as one.
  unfoldable pub read_bit : Prog (LhaError rd.Error) (BitStream rd) Bool
  unfolding next_bits
  read_bit = do bits ← next_bits 1; ret (not (bits == 0))

  -- `read_bits::<T>` for a type `T` of `w` bits, with `T::from_bits`.
  unfoldable pub read_bits : ℕ → ℕ → Prog (LhaError rd.Error) (BitStream rd) ℕ
  unfolding next_bits
  read_bits w n =
      if n == 0
      then ret 0
      else if leb n w
      then (do bits ← next_bits n; ret (bits % 2 ^ w))
      else fail (decompress "too many bits requested")
