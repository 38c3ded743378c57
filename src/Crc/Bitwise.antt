-- ===== src/Crc/Bitwise.antt =====
-- src/crc.rs against the definition of CRC-16: a shift register of 16 bits, one bit at a time, with
-- the reversed polynomial 0xa001.
use mathlib.Core.Path.{ap₂}
use rust_delharc.Prelude.{
  agree_below, agree_below_sound, ℕ, zero, suc, ◌+◌, ◌*◌, ◌/◌, ◌%◌, ◌<◌, ◌≡◌, refl, sym, ap, ◌∙◌,
  true, List, [], ◌∷◌, ◌++◌, All, bit_xor, ◌==◌, if◌then◌else◌, get_or, arith,
}
use rust_delharc.Prelude.Xor.{
  bit_xor_pairs, bit_xor_left, bit_xor_right, bit_xor_fields, bit_xor-lt, bit_xor-half,
  bit_xor-parity, bit_xor-disjoint,
}
use rust_delharc.Crc.{Crc16, digest_byte, digest_loop, digest, crc16_table}

-- One bit leaves the register.
pub shift_bit : ℕ → ℕ
shift_bit r = if r % 2 == 1 then bit_xor (r / 2) 0xa001 else r / 2

pub shift_bits : ℕ → ℕ → ℕ
unfolding shift_bit
shift_bits zero r = r
shift_bits (suc n) r = shift_bits n (shift_bit r)

-- The register after a byte, and after all of them.
pub register_byte : ℕ → ℕ → ℕ
unfolding shift_bits
register_byte r b = shift_bits 8 (bit_xor r b)

pub register : ℕ → List ℕ → ℕ
unfolding register_byte
register r [] = r
register r (b ∷ bs) = register (register_byte r b) bs

-- A shift distributes over `^`, so eight shifts of a register are those of its low byte, and the
-- high byte shifted down.
shift_bit-xor : (a b : ℕ) → shift_bit (bit_xor a b) ≡ bit_xor (shift_bit a) (shift_bit b)
unfolding shift_bit
shift_bit-xor a b = ground (
  arith,
  bit_xor-half a b,
  bit_xor-parity a b,
  bit_xor_pairs (a / 2) (b / 2) 0xa001,
  bit_xor_right (a / 2) (b / 2) 0xa001,
  bit_xor_left (a / 2) (b / 2) 0xa001,
)

shift_bits-xor :
    (n a b : ℕ) → shift_bits n (bit_xor a b) ≡ bit_xor (shift_bits n a) (shift_bits n b)
unfolding shift_bits
shift_bits-xor zero a b = refl
shift_bits-xor (suc n) a b = rw shift_bit-xor (shift_bits-xor n (shift_bit a) (shift_bit b))

shift_bit-double : (h : ℕ) → shift_bit (h * 2) ≡ h
unfolding shift_bit
shift_bit-double h = ground arith

shift_bits_high : (h : ℕ) → shift_bits 8 (h * 256) ≡ h
unfolding shift_bits
shift_bits_high h =
    let e : h * 256 ≡ h * 2 * 2 * 2 * 2 * 2 * 2 * 2 * 2 = omega arith in
    rw e (simp shift_bit-double)

table_checked : agree_below (shift_bits 8) (λ l. get_or crc16_table l 0) 256 ≡ true
unfolding agree_below shift_bits
table_checked = refl

-- Each entry of the table is what eight shifts make of its index.
crc16_table_entry : (l : ℕ) → l < 256 → shift_bits 8 l ≡ get_or crc16_table l 0
crc16_table_entry l h = agree_below_sound _ _ 256 l table_checked h

-- The high byte of a register, and its low byte with the next byte.
register_split : (r b : ℕ) → b < 256 → bit_xor r b ≡ bit_xor (r / 256 * 256) (bit_xor (r % 256) b)
register_split r b h =
    let e : r ≡ r / 256 * 256 + r % 256 = omega arith in
    let low : bit_xor (r % 256) b < 256 = bit_xor-lt 8 (r % 256) b (omega arith) h in
    omega (
      arith,
      ap (λ (t : ℕ). bit_xor t b) e,
      bit_xor_fields 8 (r / 256) (r % 256) b (omega arith) h,
      bit_xor-disjoint 8 (r / 256) (bit_xor (r % 256) b) low,
    )

digest_byte-eq-register_byte : (r b : ℕ) → b < 256 → digest_byte r b ≡ register_byte r b
unfolding digest_byte register_byte
digest_byte-eq-register_byte r b h =
    let low : bit_xor (r % 256) b < 256 = bit_xor-lt 8 (r % 256) b (omega arith) h in
    sym (
      ap (shift_bits 8) (register_split r b h)
      ∙ shift_bits-xor 8 (r / 256 * 256) (bit_xor (r % 256) b)
      ∙ ap₂ bit_xor (shift_bits_high (r / 256)) (crc16_table_entry (bit_xor (r % 256) b) low))

-- `digest`, which looks bytes up in a table, is the CRC-16 register that shifts one bit at a time,
-- from any state and for any sequence of bytes.
pub digest-eq-register :
    (c : Crc16) (bytes : List ℕ)
    → All (λ b. b < 256) bytes
    → digest c bytes ≡ record { sum = register c.sum bytes }
unfolding digest register
digest-eq-register c bytes h = ap (λ s. record { sum = s }) (loop c.sum bytes h)
  where
    loop : (r : ℕ) (bs : List ℕ) → All (λ b. b < 256) bs → digest_loop r bs ≡ register r bs
    loop r [] h = refl
    loop r (b ∷ bs) (hb, hbs) =
        rw (digest_byte-eq-register_byte r b hb) (loop (register_byte r b) bs hbs)

-- The checksum of two chunks one after the other is that of both at once.
pub digest-append : (c : Crc16) (xs ys : List ℕ) → digest c (xs ++ ys) ≡ digest (digest c xs) ys
unfolding digest
digest-append c xs ys = ap (λ s. record { sum = s }) (loop c.sum xs)
  where
    loop : (r : ℕ) (bs : List ℕ) → digest_loop r (bs ++ ys) ≡ digest_loop (digest_loop r bs) ys
    loop r [] = refl
    loop r (b ∷ bs) = loop (digest_byte r b) bs

pub digest-nil : (c : Crc16) → digest c [] ≡ c
unfolding digest
digest-nil c = refl
