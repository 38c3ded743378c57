-- ===== src/StaticTree/Reading.antt =====
-- src/statictree.rs with src/bitstream.rs: the codes of an accepted tree in a stream of bytes.
use rust_delharc.Prelude.{
  ℕ, zero, suc, ◌+◌, ◌-◌, ◌*◌, ◌/◌, ◌%◌, ◌^◌, ◌≤◌, ◌<◌, ◌≡◌, refl, sym, ap, ◌∙◌, List, [], ◌∷◌,
  ◌++◌, length, get_or, arith,
}
use native.Mathlib.Nat.{one-le-pow, mod-lt, mod-eq_of_lt, mul-le-mul_right, div-add-mod', pow-suc}
use rust_delharc.Outcome.{Outcome, ok, err, panic, out_of_fuel, Prog}
use rust_delharc.Error.{LhaError}
use rust_delharc.StubIo.{slice}
use rust_delharc.BitStream.{BitStream, next_bits, read_bits}
use rust_delharc.BitStream.Refill.{be-lt}
use rust_delharc.BitStream.Marker.{two_pow-add, fields-div, fields-mod}
use rust_delharc.BitStream.Refine.{Holds, count, value}
use rust_delharc.BitStream.Stream.{next_bits-Took, cut}
use rust_delharc.StaticTree.{HuffTree, built, build_tree, read_entry}
use rust_delharc.StaticTree.Canonical.{code, code_bits, low_bits}
use rust_delharc.StaticTree.Codes.{Gives, read_entry-code}

-- The bit in front of the last `p` of `x`, and what is left behind it.
module _ (x p : ℕ) (pos : 0 < p) where
  front_bit : (x % (2 * p) / p ≡ x / p % 2) × (x % (2 * p) % p ≡ x % p) × (x / (2 * p) ≡ x / p / 2)
  front_bit =
      let low = mod-lt x pos in
      let bit = mod-lt (x / p) {m = 2} (omega arith) in
      let halves : x / p ≡ x / p / 2 * 2 + x / p % 2 = omega arith in
      let fields : x ≡ x / p / 2 * (2 * p) + (x / p % 2 * p + x % p) =
        sym (div-add-mod' x p) ∙ ap (λ (q : ℕ). q * p + x % p) halves ∙ omega arith in
      let (top, rest) = cut (x / p / 2) (x / p % 2) (x % p) 2 p bit low x fields in
      (
        ap (λ (y : ℕ). y / p) rest ∙ fields-div (x / p % 2) (x % p) p low,
        ap (λ (y : ℕ). y % p) rest ∙ fields-mod (x / p % 2) (x % p) p low,
        top,
      )

-- A stream after the first `n` of the `c` bits of `x`.
record Left (s : BitStream slice) (x c n : ℕ) : Type 0 where
  stream : BitStream slice
  have : ℕ
  bits : ℕ
  gives : Gives (read_bits slice 64 1) (low_bits n (x / 2 ^ (c - n))) s stream
  holds : Holds stream have bits
  fewer : count stream have ≡ c - n
  rest : value stream bits ≡ x % 2 ^ (c - n)

Gives-snoc :
    {E S : Type 0} (read_bit : Prog E S ℕ) (bits : List ℕ) (b : ℕ) (s t u : S)
    → Gives read_bit bits s t
    → read_bit t ≡ ok b u
    → b < 2
    → Gives read_bit (bits ++ b ∷ []) s u
Gives-snoc read_bit [] b s t u g e h = (u, rw g e, h, refl)
Gives-snoc read_bit (c ∷ bits) b s t u (w, got, small, rest) e h =
    (w, got, small, Gives-snoc read_bit bits b w t u rest e h)

read_bits-one :
    (s u : BitStream slice) (b : ℕ)
    → next_bits slice 1 s ≡ ok b u
    → b < 2
    → read_bits slice 64 1 s ≡ ok b u
unfolding read_bits
read_bits-one s u b e h =
    let small : b % 2 ^ 64 ≡ b = omega arith in after (next_bits slice 1 s) e ∙ (rw small refl)
  where
    after :
        (o : Outcome (LhaError slice.Error) (BitStream slice) ℕ)
        → o ≡ ok b u
        → elim o as (λ x. Outcome (LhaError slice.Error) (BitStream slice) ℕ) [
          | ok a t ↦ ok (a % 2 ^ 64) t
          | err f t ↦ err f t
          | panic ↦ panic
          | out_of_fuel ↦ out_of_fuel
        ]
          ≡ ok (b % 2 ^ 64) u
    after o q = rw q refl

stream-Left :
    (n : ℕ) (s : BitStream slice) (have v : ℕ)
    → Holds s have v
    → n ≤ count s have
    → value s v < 2 ^ count s have
    → Left s (value s v) (count s have) n
unfolding low_bits
stream-Left zero s have v h fits small =
    let all : count s have - 0 ≡ count s have = omega arith in
    record {
      stream = s;
      have = have;
      bits = v;
      gives = refl;
      holds = h;
      fewer = omega arith;
      rest = rw all (sym (mod-eq_of_lt small));
    }
stream-Left (suc n) s have v h fits small =
    let x = value s v in
    let c = count s have in
    let l = stream-Left n s have v h (omega arith) small in
    let one =
      next_bits-Took l.stream l.have l.bits 1 l.holds (omega arith) (omega arith)
        (omega (arith, l.fewer)) in
    let p = 2 ^ (c - suc n) in
    let pos : 0 < p = one-le-pow (c - suc n) 2 (omega arith) in
    let (bit, rest, top) = front_bit x p pos in
    let left : count l.stream l.have - 1 ≡ c - suc n = omega (arith, l.fewer) in
    let twice : 2 ^ (c - n) ≡ 2 * p =
      let e : c - n ≡ suc (c - suc n) = omega arith in
      rw e (omega (arith, pow-suc 2 (c - suc n))) in
    let bit_value : value l.stream l.bits / 2 ^ (count l.stream l.have - 1) ≡ x / p % 2 =
      rw (l.rest, twice, left) bit in
    let two : x / p % 2 < 2 = omega arith in
    let got = read_bits-one l.stream one.stream (x / p % 2) (rw bit_value at one.result) two in
    let first : x / 2 ^ (c - n) ≡ x / p / 2 = rw twice top in
    let gives = rw first at l.gives in
    record {
      stream = one.stream;
      have = one.have;
      bits = one.bits;
      gives =
          Gives-snoc (read_bits slice 64 1) (low_bits n (x / p / 2)) (x / p % 2) s l.stream
            one.stream gives got two;
      holds = one.holds;
      fewer = one.fewer ∙ left;
      rest = one.rest ∙ (rw (l.rest, twice, left) rest);
    }

value-lt : (s : BitStream slice) (have v : ℕ) → Holds s have v → value s v < 2 ^ count s have
value-lt s have v h =
    let low = be-lt s.inner h.bytes in
    let small = h.small in
    rw (two_pow-add have (8 * length s.inner)) (
      omega (
        arith,
        mul-le-mul_right {m = v + 1} {n = 2 ^ have} (2 ^ (8 * length s.inner)) (omega arith),
      ))

-- A stream of bytes in memory after a value is read from it, which had the code of the value in
-- front: `l` bits fewer.
pub record ReadsCode (s : BitStream slice) (x c l : ℕ) (t : HuffTree) (v : ℕ) : Type 0 where
  pub stream : BitStream slice
  pub have : ℕ
  pub bits : ℕ
  pub result : read_entry (read_bits slice 64 1) t s ≡ ok v stream
  pub holds : Holds stream have bits
  pub fewer : count stream have ≡ c - l
  pub rest : value stream bits ≡ x % 2 ^ (c - l)

-- If `build_tree` accepts code lengths, a value of a length from 1 to 255, and bytes in memory
-- whose bits begin with the canonical code of the value (the codes of a length numbered one after
-- the other in the order of the values, from twice the number behind the last code of the length
-- before), then `read_entry` returns the value, takes the bits of its code, and leaves a stream
-- with the other bits.
pub read_entry-ReadsCode :
    (old t : HuffTree) (lens : List ℕ)
    → build_tree old lens ≡ built t
    → (v : ℕ) → v < length lens
    → 0 < get_or lens v 0
    → get_or lens v 0 < 256
    → (s : BitStream slice) (have w : ℕ) → Holds s have w
    → get_or lens v 0 ≤ count s have
    → value s w / 2 ^ (count s have - get_or lens v 0) ≡ code lens v
    → ReadsCode s (value s w) (count s have) (get_or lens v 0) t v
unfolding code_bits
read_entry-ReadsCode old t lens e v inside used short s have w h fits front =
    let l = stream-Left (get_or lens v 0) s have w h fits (value-lt s have w h) in
    record {
      stream = l.stream;
      have = l.have;
      bits = l.bits;
      result =
          read_entry-code (read_bits slice 64 1) old t lens e v inside used short s l.stream
            (rw front at l.gives);
      holds = l.holds;
      fewer = l.fewer;
      rest = l.rest;
    }
