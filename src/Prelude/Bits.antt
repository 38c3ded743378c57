-- ===== src/Prelude/Bits.antt =====
-- `&`, `|` and `^` by their lowest digit, and what masks and disjoint fields are in arithmetic.
use Prim.Native.Nat.{
  ℕ, zero, suc, ◌+◌, ◌-◌, ◌*◌, ◌/◌, ◌%◌, ◌^◌, ◌≤◌, ◌<◌, min, max, differ, bit_and, bit_or, bit_xor,
  digits, bitwise, bit_and-bitwise, bit_or-bitwise, bit_xor-bitwise,
}
use mathlib.Core.Path.{◌≡◌, refl, sym, ap, ◌∙◌}
use native.Mathlib.Omega.{arith}
use native.Mathlib.Nat.{pow-suc, one-le-pow}

-- Two amounts of fuel that both reach the number give the same digits.
module _ (low : ℕ → ℕ) (op : ℕ → ℕ → ℕ) where
  digits_enough : (x y p q : ℕ) → x ≤ p → x ≤ q → digits low op p x y ≡ digits low op q x y
  digits_enough zero y zero zero hp hq = refl
  digits_enough zero y zero (suc q) hp hq = refl
  digits_enough zero y (suc p) zero hp hq = refl
  digits_enough zero y (suc p) (suc q) hp hq = refl
  digits_enough (suc x) y zero q hp hq = absurd (omega arith)
  digits_enough (suc x) y (suc p) zero hp hq = absurd (omega arith)
  digits_enough (suc x) y (suc p) (suc q) hp hq =
      omega (arith, digits_enough (suc x / 2) (y / 2) p q (omega arith) (omega arith))

  bitwise_step :
      (x y : ℕ)
      → bitwise low op (suc x) y ≡ bitwise low op (suc x / 2) (y / 2) * 2 + op (suc x % 2) (y % 2)
  bitwise_step x y =
      let half = suc x / 2 in
      omega (arith, digits_enough half (y / 2) x half (omega arith) (omega arith))

pub bit_xor_step : (x y : ℕ) → bit_xor x y ≡ bit_xor (x / 2) (y / 2) * 2 + differ (x % 2) (y % 2)
bit_xor_step zero y = simp bit_xor-bitwise (omega arith)
bit_xor_step (suc x) y = simp bit_xor-bitwise (bitwise_step (λ rest. rest) differ x y)

pub bit_and_step : (x y : ℕ) → bit_and x y ≡ bit_and (x / 2) (y / 2) * 2 + min (x % 2) (y % 2)
bit_and_step zero y = simp bit_and-bitwise (omega arith)
bit_and_step (suc x) y = simp bit_and-bitwise (bitwise_step (λ rest. 0) min x y)

pub bit_or_step : (x y : ℕ) → bit_or x y ≡ bit_or (x / 2) (y / 2) * 2 + max (x % 2) (y % 2)
bit_or_step zero y = simp bit_or-bitwise (omega arith)
bit_or_step (suc x) y = simp bit_or-bitwise (bitwise_step (λ rest. rest) max x y)

-- A zero on the right, by the halves of the number on the left.
module _ (op : ℕ → ℕ → ℕ) (result : ℕ → ℕ) (base : op 0 0 ≡ 0) (start : result 0 ≡ 0)
    (halve : (x : ℕ) → op (x / 2) 0 ≡ result (x / 2) → op x 0 ≡ result x) where
  by_halves : (bound x : ℕ) → x ≤ bound → op x 0 ≡ result x
  by_halves zero zero h = base ∙ sym start
  by_halves zero (suc x) h = absurd (omega arith)
  by_halves (suc bound) zero h = base ∙ sym start
  by_halves (suc bound) (suc x) h = halve (suc x) (by_halves bound (suc x / 2) (omega arith))

pub bit_and-zero : (x : ℕ) → bit_and x 0 ≡ 0
bit_and-zero x =
    by_halves bit_and (λ y. 0) refl refl (λ y e. omega (arith, bit_and_step y 0, e)) x x
      (omega arith)

pub bit_or-zero : (x : ℕ) → bit_or x 0 ≡ x
bit_or-zero x =
    by_halves bit_or (λ y. y) refl refl (λ y e. omega (arith, bit_or_step y 0, e)) x x (omega arith)

pub mul-two_pow-suc : (q k : ℕ) → q * 2 ^ suc k ≡ 2 * (q * 2 ^ k)
mul-two_pow-suc q k = omega (arith, ap (λ (t : ℕ). q * t) (pow-suc 2 k))

zero-bit_or : (b : ℕ) → bit_or 0 b ≡ b
zero-bit_or b = bit_or-bitwise 0 b

-- `(q << k) | r` is a sum when `r` fits `k` bits, in either order.
pub bit_or_low : (k q r : ℕ) → r < 2 ^ k → bit_or (q * 2 ^ k) r ≡ q * 2 ^ k + r
bit_or_low zero q r h = ground (arith, bit_or-zero q)
bit_or_low (suc k) q r h = ground (
  arith,
  bit_or_step (q * 2 ^ suc k) r,
  mul-two_pow-suc q k,
  bit_or_low k q (r / 2) (omega arith),
)

pub bit_or_high : (k q r : ℕ) → r < 2 ^ k → bit_or r (q * 2 ^ k) ≡ q * 2 ^ k + r
bit_or_high zero q zero h = omega (arith, zero-bit_or (q * 2 ^ 0))
bit_or_high zero q (suc r) h = absurd (omega arith)
bit_or_high (suc k) q r h = ground (
  arith,
  bit_or_step r (q * 2 ^ suc k),
  mul-two_pow-suc q k,
  bit_or_high k q (r / 2) (omega arith),
)

mask_fields : (k q r : ℕ) → r < 2 ^ k → bit_and (q * 2 ^ k + r) (2 ^ k - 1) ≡ r
mask_fields zero q r h = rw bit_and-zero (omega arith)
mask_fields (suc k) q r h = ground (
  arith,
  bit_and_step (q * 2 ^ suc k + r) (2 ^ suc k - 1),
  mul-two_pow-suc q k,
  pow-suc 2 k,
  mask_fields k q (r / 2) (omega arith),
)

-- A mask of `k` ones is the remainder by `2 ^ k`.
pub bit_and_mask : (k a : ℕ) → bit_and a (2 ^ k - 1) ≡ a % 2 ^ k
bit_and_mask k a = ground (arith, one-le-pow k 2, mask_fields k (a / 2 ^ k) (a % 2 ^ k))
