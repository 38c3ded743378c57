-- ===== src/BitStream/Refine.antt =====
-- src/bitstream.rs: a bit stream over bytes in memory against the number that all of its bits make,
-- the highest one first.
use rust_delharc.Prelude.{
  ℕ, ◌+◌, ◌-◌, ◌*◌, ◌/◌, ◌%◌, ◌^◌, ◌≤◌, ◌<◌, ◌≡◌, sym, ap, ◌∙◌, true, [], length, take, drop, min,
  All, All-take, length-take, drop_past, ltb, arith,
}
use rust_delharc.Outcome.{ok, err}
use rust_delharc.Error.{io}
use rust_delharc.StubIo.{slice}
use rust_delharc.StubIo.Slice
use rust_delharc.StubIo.Slice.{unexpected_eof_error}
use rust_delharc.BitStream.{BitStream, next_bits, refill}
use rust_delharc.BitStream.Word
use rust_delharc.BitStream.Word.{marked_stream, next_bits-refill}
use rust_delharc.BitStream.Refill.{be, refill_lem}

-- `have` bits of the word, with the value `v`, are in front of the bytes.
pub record Holds (s : BitStream slice) (have v : ℕ) : Type 0 where
  pub word : s.bits_buf ≡ (2 * v + 1) * 2 ^ (63 - have)
  pub room : have ≤ 63
  pub small : v < 2 ^ have
  pub bytes : All (λ b. b < 256) s.inner

-- How many bits there are, and the number that they make.
abbrev pub count : BitStream slice → ℕ → ℕ
count s have = have + 8 * length s.inner

abbrev pub value : BitStream slice → ℕ → ℕ
value s v = v * 2 ^ (8 * length s.inner) + be s.inner

module _ (s : BitStream slice) (have v n : ℕ) (holds : Holds s have v) (pos : 0 < n)
    (fits : n ≤ 64) where
  form : s ≡ marked_stream slice s.inner have v
  form = ap (λ (w : ℕ). record { inner = s.inner; bits_buf = w }) holds.word

  -- The bits are in the word.
  pub next_bits-buffered :
      n ≤ have
      → next_bits slice n s
        ≡ ok (v / 2 ^ (have - n)) (record {
          inner = s.inner;
          bits_buf = (2 * (v % 2 ^ (have - n)) + 1) * 2 ^ (63 - (have - n));
        })
  next_bits-buffered h =
      ap (next_bits slice n) form
      ∙ Word.next_bits-buffered slice s.inner have v n holds.room pos fits h

  -- The word is filled again.
  pub next_bits-filled :
      have < n
      → n ≤ have + 8 * length s.inner
      → let bytes = take (min 8 (length s.inner)) s.inner in
        let e = have + 8 * length bytes - n in
        next_bits slice n s
        ≡ ok (v * 2 ^ (n - have) + be bytes / 2 ^ e) (record {
          inner = drop (min 8 (length s.inner)) s.inner;
          bits_buf = (2 * (be bytes % 2 ^ e) + 1) * 2 ^ (63 - e);
        })
  unfolding Slice.read_all
  next_bits-filled h g =
      let k = min 8 (length s.inner) in
      let size : length (take k s.inner) ≡ k = omega (arith, length-take k s.inner) in
      ap (next_bits slice n) form
      ∙ next_bits-refill slice s.inner have v n holds.room pos fits h
      ∙ refill_lem slice v (n - have) (have + 8 * length (take k s.inner) - n) (take k s.inner)
          (drop k s.inner) (marked_stream slice s.inner have v) (omega arith) (omega arith)
          (omega arith) (All-take _ k s.inner holds.bytes)

  -- On bytes in memory, if 1 to 64 bits are asked for and there are fewer, `next_bits` fails with
  -- the end of file, all bytes are gone and the word stays as it was.
  pub next_bits-ended :
      have + 8 * length s.inner < n
      → next_bits slice n s
        ≡ err (io unexpected_eof_error) (record { inner = []; bits_buf = s.bits_buf })
  unfolding Slice.read_all refill
  next_bits-ended h =
      let more : have < n = omega arith in
      let less : min 8 (length s.inner) ≡ length s.inner = omega (arith, holds.room) in
      let size : length (take (length s.inner) s.inner) ≡ length s.inner =
        omega (arith, length-take (length s.inner) s.inner) in
      let ended : ltb (8 * length s.inner) (n - have) ≡ true = ground arith in
      ap (next_bits slice n) form
      ∙ next_bits-refill slice s.inner have v n holds.room pos fits more
      ∙ (rw (less, size, ended, drop_past (length s.inner) s.inner (omega arith))
          (ap (λ (w : ℕ). err (io unexpected_eof_error) (record { inner = []; bits_buf = w }))
            (sym holds.word)))
