-- ===== src/BitStream/Marker.antt =====
-- src/bitstream.rs: the word of a bit stream. Its highest bits are the `have` bits that are not read
-- yet, a one follows, then zeros.
use rust_delharc.Prelude.{
  ℕ, zero, suc, ◌+◌, ◌-◌, ◌*◌, ◌/◌, ◌%◌, ◌^◌, ◌≤◌, ◌<◌, ◌≡◌, refl, sym, ap, ◌∙◌, arith, u64,
  bit_and,
}
use native.Mathlib.Nat.{
  pow-suc, one-le-pow, mul-add-div_right, mul-add-mod_self_right, mod-eq_of_lt, div-eq_of_lt,
  div-add-mod', mod-lt, mul-lt-mul_of_pos_right, mul-le-mul,
}
use rust_delharc.Prelude.Bits.{bit_and_step, mul-two_pow-suc}
use rust_delharc.BitStream.{trailing_zeros}

abbrev pub marked : ℕ → ℕ → ℕ
marked have v = (2 * v + 1) * 2 ^ (63 - have)

pub two_pow-add : (m n : ℕ) → 2 ^ (m + n) ≡ 2 ^ m * 2 ^ n
two_pow-add zero n = let e : 0 + n ≡ n = omega arith in rw e (omega arith)
two_pow-add (suc m) n =
    let e : suc m + n ≡ suc (m + n) = omega arith in
    rw e
      (omega (arith, pow-suc 2 (m + n), two_pow-add m n, ap (λ (t : ℕ). t * 2 ^ n) (pow-suc 2 m)))

-- Quotient and remainder of a number that is given by them.
pub fields-div : (q r c : ℕ) → r < c → (q * c + r) / c ≡ q
fields-div q r c h =
    let pos : 0 < c = omega arith in omega (arith, mul-add-div_right pos q r, div-eq_of_lt h)

pub fields-mod : (q r c : ℕ) → r < c → (q * c + r) % c ≡ r
fields-mod q r c h = mul-add-mod_self_right q c r ∙ mod-eq_of_lt h

pub trailing_zeros-odd : (w z v : ℕ) → z < w → trailing_zeros w ((2 * v + 1) * 2 ^ z) ≡ z
unfolding trailing_zeros
trailing_zeros-odd zero z v h = absurd (omega arith)
trailing_zeros-odd (suc w) zero v h = let odd : (2 * v + 1) * 1 % 2 ≡ 1 = omega arith in rw odd refl
trailing_zeros-odd (suc w) (suc z) v h =
    let x = (2 * v + 1) * 2 ^ z in
    let twice : (2 * v + 1) * 2 ^ suc z ≡ x * 2 =
      omega (arith, ap (λ (t : ℕ). (2 * v + 1) * t) (pow-suc 2 z)) in
    let even : x * 2 % 2 ≡ 0 = omega arith in
    let half : x * 2 / 2 ≡ x = omega arith in
    rw (twice, even, half) (ap suc (trailing_zeros-odd w z v (omega arith)))

-- The word over the weights of its fields: `A` for the bits that stay, `Z` for the zeros.
module _ (q r A Z : ℕ) (small : r < A) (pos : 0 < Z) where
  word_fields : (2 * (q * A + r) + 1) * Z ≡ q * (2 * A * Z) + (2 * r + 1) * Z
  word_fields = omega arith

  low_field : (2 * r + 1) * Z < 2 * A * Z
  low_field = mul-lt-mul_of_pos_right (omega arith) pos

-- Taking `n` of the bits in the word; `a` stay.
module _ (a n z v : ℕ) (width : z + n + a + 1 ≡ 64) where
  split : v ≡ v / 2 ^ a * 2 ^ a + v % 2 ^ a
  split = sym (div-add-mod' v (2 ^ a))

  weight : 2 ^ (64 - n) ≡ 2 * 2 ^ a * 2 ^ z
  weight =
      let e : 64 - n ≡ suc (a + z) = omega arith in
      rw e (omega (arith, pow-suc 2 (a + z), two_pow-add a z))

  fields : (2 * v + 1) * 2 ^ z ≡ v / 2 ^ a * (2 * 2 ^ a * 2 ^ z) + (2 * (v % 2 ^ a) + 1) * 2 ^ z
  fields =
      ap (λ x. (2 * x + 1) * 2 ^ z) split
      ∙ word_fields (v / 2 ^ a) (v % 2 ^ a) (2 ^ a) (2 ^ z)
          (mod-lt v (one-le-pow a 2 (omega arith))) (one-le-pow z 2 (omega arith))

  low : (2 * (v % 2 ^ a) + 1) * 2 ^ z < 2 * 2 ^ a * 2 ^ z
  low =
      low_field (v / 2 ^ a) (v % 2 ^ a) (2 ^ a) (2 ^ z) (mod-lt v (one-le-pow a 2 (omega arith)))
        (one-le-pow z 2 (omega arith))

  pub buffered_bits : (2 * v + 1) * 2 ^ z / 2 ^ (64 - n) ≡ v / 2 ^ a
  buffered_bits =
      rw (weight, fields)
        (fields-div (v / 2 ^ a) ((2 * (v % 2 ^ a) + 1) * 2 ^ z) (2 * 2 ^ a * 2 ^ z) low)

  whole : 2 ^ 64 ≡ 2 * 2 ^ a * 2 ^ z * 2 ^ n
  whole =
      let e : 64 - n + n ≡ 64 = omega arith in
      ap (λ (k : ℕ). 2 ^ k) (sym e) ∙ two_pow-add (64 - n) n ∙ ap (λ (t : ℕ). t * 2 ^ n) weight

  pub buffered_rest : u64 ((2 * v + 1) * 2 ^ z * 2 ^ n) ≡ (2 * (v % 2 ^ a) + 1) * 2 ^ (z + n)
  buffered_rest =
      ap (λ (t : ℕ). (2 * v + 1) * 2 ^ z * 2 ^ n % t) whole
      ∙ ap (λ (x : ℕ). x % (2 * 2 ^ a * 2 ^ z * 2 ^ n)) shifted
      ∙ fields-mod (v / 2 ^ a) ((2 * (v % 2 ^ a) + 1) * 2 ^ z * 2 ^ n) (2 * 2 ^ a * 2 ^ z * 2 ^ n)
          (mul-lt-mul_of_pos_right low (one-le-pow n 2 (omega arith)))
      ∙ omega (arith, ap (λ (t : ℕ). (2 * (v % 2 ^ a) + 1) * t) (two_pow-add z n))
    where
      shifted :
          (2 * v + 1) * 2 ^ z * 2 ^ n
          ≡ v / 2 ^ a * (2 * 2 ^ a * 2 ^ z * 2 ^ n) + (2 * (v % 2 ^ a) + 1) * 2 ^ z * 2 ^ n
      shifted = ap (λ (x : ℕ). x * 2 ^ n) fields ∙ omega arith

-- `res & (res - 1)` clears the lowest one.
bit_and_self : (bound x : ℕ) → x ≤ bound → bit_and x x ≡ x
bit_and_self bound zero h = refl
bit_and_self zero (suc x) h = absurd (omega arith)
bit_and_self (suc bound) (suc x) h =
    omega (arith, bit_and_step (suc x) (suc x), bit_and_self bound (suc x / 2) (omega arith))

pub marked-pos : (v k : ℕ) → 0 < (2 * v + 1) * 2 ^ k
marked-pos v k = omega (
  arith,
  mul-le-mul {n₁ = 1} {m₁ = 1} {n₂ = 2 * v + 1} {m₂ = 2 ^ k} (omega arith)
      (one-le-pow k 2 (omega arith)),
)

pub clear_lowest : (k v : ℕ) → let x = (2 * v + 1) * 2 ^ k in bit_and x (x - 1) ≡ v * 2 ^ (k + 1)
clear_lowest zero v =
    let odd : (2 * v + 1) * 2 ^ 0 ≡ 2 * v + 1 = omega arith in
    let less : 2 * v + 1 - 1 ≡ 2 * v = omega arith in
    let up : (2 * v + 1) / 2 ≡ v = omega arith in
    let down : 2 * v / 2 ≡ v = omega arith in
    rw (odd, less, bit_and_step (2 * v + 1) (2 * v), up, down, bit_and_self v v (omega arith))
      (omega arith)
clear_lowest (suc k) v =
    let y = (2 * v + 1) * 2 ^ k in
    let twice : (2 * v + 1) * 2 ^ suc k ≡ y * 2 =
      omega (arith, ap (λ (t : ℕ). (2 * v + 1) * t) (pow-suc 2 k)) in
    let pos : 0 < y = marked-pos v k in
    let up : y * 2 / 2 ≡ y = omega arith in
    let down : (y * 2 - 1) / 2 ≡ y - 1 = omega arith in
    let e : suc k + 1 ≡ suc (k + 1) = omega arith in
    rw (twice, e, bit_and_step (y * 2) (y * 2 - 1), up, down, clear_lowest k v)
      (omega (arith, mul-two_pow-suc v (k + 1)))
