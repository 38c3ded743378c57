-- ===== src/BitStream/Word.antt =====
-- src/bitstream.rs: what `next_bits` does with its word, for any reader.
use rust_delharc.Prelude.{
  ℕ, ◌+◌, ◌-◌, ◌*◌, ◌/◌, ◌%◌, ◌^◌, ◌≤◌, ◌<◌, ◌≡◌, refl, ap, ◌∙◌, true, false, ltb, leb, ◌||◌, ◌==◌,
  arith,
}
use mathlib.Core.Path.{ap₂}
use native.Mathlib.Nat.{one-le-pow, mul-div_cancel}
use rust_delharc.Outcome.{Outcome, ok, err, panic, out_of_fuel}
use rust_delharc.Error.{LhaError, io}
use rust_delharc.StubIo.{Read}
use rust_delharc.BitStream.{BitStream, next_bits, refill, trailing_zeros}
use rust_delharc.BitStream.Marker.{two_pow-add, trailing_zeros-odd, buffered_bits, buffered_rest}

-- The word of `have` bits, with the value `v`.
abbrev pub marked_stream : (rd : Read) → rd.Reader → ℕ → ℕ → BitStream rd
marked_stream rd r have v = record { inner = r; bits_buf = (2 * v + 1) * 2 ^ (63 - have) }

module _ (rd : Read) (r : rd.Reader) (have v n : ℕ) (room : have ≤ 63) (pos : 0 < n)
    (fits : n ≤ 64) where
  zeros : trailing_zeros 64 ((2 * v + 1) * 2 ^ (63 - have)) ≡ 63 - have
  zeros = trailing_zeros-odd 64 (63 - have) v (omega arith)

  have_bits : 64 - (63 - have) - 1 ≡ have
  have_bits = omega arith

  allowed : (n == 0 || ltb 64 n || leb 64 (63 - have)) ≡ false
  allowed = ground arith

  -- The bits are in the word.
  pub next_bits-buffered :
      n ≤ have
      → next_bits rd n (marked_stream rd r have v)
        ≡ ok (v / 2 ^ (have - n)) (marked_stream rd r (have - n) (v % 2 ^ (have - n)))
  unfolding next_bits
  next_bits-buffered h =
      let width : 63 - have + n + (have - n) + 1 ≡ 64 = omega arith in
      let enough : leb n have ≡ true = ground arith in
      let place : 63 - (have - n) ≡ 63 - have + n = omega arith in
      rw
        (
          zeros,
          have_bits,
          allowed,
          enough,
          place,
          buffered_bits (have - n) n (63 - have) v width,
          buffered_rest (have - n) n (63 - have) v width,
        )
        refl

  -- The word is filled again, from the bits that are left in it.
  pub next_bits-refill :
      have < n
      → next_bits rd n (marked_stream rd r have v)
        ≡ elim (rd.read_all 8 r) as (λ x. Outcome (LhaError rd.Error) (BitStream rd) ℕ) [
          | ok bytes r' ↦
              refill rd
                ((2 * v + 1) * 2 ^ (n - have - 1))
                (n - have)
                bytes
                r'
                (marked_stream rd r have v)
          | err e r' ↦ err (io e) (marked_stream rd r' have v)
          | panic ↦ panic
          | out_of_fuel ↦ out_of_fuel
        ]
  unfolding next_bits
  next_bits-refill h =
      let few : leb n have ≡ false = ground arith in
      let old : (2 * v + 1) * 2 ^ (63 - have) / 2 ^ (64 - n) ≡ (2 * v + 1) * 2 ^ (n - have - 1) =
        let place : 63 - have ≡ n - have - 1 + (64 - n) = omega arith in
        rw (place, two_pow-add (n - have - 1) (64 - n))
          (ap (λ (t : ℕ). t / 2 ^ (64 - n)) (omega arith)
            ∙ mul-div_cancel ((2 * v + 1) * 2 ^ (n - have - 1))
                (one-le-pow (64 - n) 2 (omega arith))) in
      rw (zeros, have_bits, allowed, few)
        (ap₂ after (ap (λ (z : ℕ). 64 - z - 1) zeros ∙ have_bits) old)
    where
      after : ℕ → ℕ → Outcome (LhaError rd.Error) (BitStream rd) ℕ
      after had res =
          elim (rd.read_all 8 r) as (λ x. Outcome (LhaError rd.Error) (BitStream rd) ℕ) [
            | ok bytes r' ↦ refill rd res (n - had) bytes r' (marked_stream rd r have v)
            | err e r' ↦ err (io e) (marked_stream rd r' have v)
            | panic ↦ panic
            | out_of_fuel ↦ out_of_fuel
          ]
