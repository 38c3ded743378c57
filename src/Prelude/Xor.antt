-- ===== src/Prelude/Xor.antt =====
-- `^` in arithmetic, and as the operation of an abelian group.
use Prim.Native.Nat.{
  ℕ, zero, suc, ◌+◌, ◌*◌, ◌/◌, ◌%◌, ◌^◌, ◌≤◌, ◌<◌, differ, bit_xor, bit_xor-bitwise,
}
use mathlib.Core.Path.{◌≡◌, refl, sym, ap, ◌∙◌}
use native.Mathlib.Omega.{arith}
use native.Mathlib.Nat.{pow-suc, one-le-pow}
use rust_delharc.Prelude.Bits.{bit_xor_step, mul-two_pow-suc}

differ-zero : (x : ℕ) → differ x 0 ≡ x
differ-zero zero = refl
differ-zero (suc x) = refl

bit_xor-zero_below : (n a : ℕ) → a ≤ n → bit_xor a 0 ≡ a
bit_xor-zero_below n zero h = refl
bit_xor-zero_below zero (suc a) h = absurd (omega arith)
bit_xor-zero_below (suc n) (suc a) h = omega (
  arith,
  bit_xor_step (suc a) 0,
  differ-zero (suc a % 2),
  bit_xor-zero_below n (suc a / 2) (omega arith),
)

pub bit_xor-zero : (a : ℕ) → bit_xor a 0 ≡ a
bit_xor-zero a = bit_xor-zero_below a a (omega arith)

differ-lt : (x y : ℕ) → x < 2 → y < 2 → differ x y < 2
differ-lt zero y p q = q
differ-lt (suc x) zero p q = p
differ-lt (suc x) (suc y) p q = differ-lt x y (omega arith) (omega arith)

pub zero-bit_xor : (b : ℕ) → bit_xor 0 b ≡ b
zero-bit_xor b = bit_xor-bitwise 0 b

pub bit_xor-lt : (k a b : ℕ) → a < 2 ^ k → b < 2 ^ k → bit_xor a b < 2 ^ k
bit_xor-lt zero zero b p q = omega (arith, zero-bit_xor b)
bit_xor-lt zero (suc a) b p q = absurd (omega arith)
bit_xor-lt (suc k) a b p q = omega (
  arith,
  bit_xor_step a b,
  differ-lt (a % 2) (b % 2) (omega arith) (omega arith),
  pow-suc 2 k,
  bit_xor-lt k (a / 2) (b / 2) (omega (arith, pow-suc 2 k)) (omega (arith, pow-suc 2 k)),
)

-- An operand of `k` bits changes the lowest `k` bits alone.
pub bit_xor_fields :
    (k q r b : ℕ) → r < 2 ^ k → b < 2 ^ k → bit_xor (q * 2 ^ k + r) b ≡ q * 2 ^ k + bit_xor r b
bit_xor_fields zero q zero zero p h = omega (arith, bit_xor-zero (q * 2 ^ 0 + 0), bit_xor-zero 0)
bit_xor_fields zero q zero (suc b) p h = absurd (omega arith)
bit_xor_fields zero q (suc r) b p h = absurd (omega arith)
bit_xor_fields (suc k) q r b p h = ground (
  arith,
  bit_xor_step (q * 2 ^ suc k + r) b,
  bit_xor_step r b,
  mul-two_pow-suc q k,
  pow-suc 2 k,
  bit_xor_fields k q (r / 2) (b / 2) (omega (arith, pow-suc 2 k)) (omega (arith, pow-suc 2 k)),
)

-- `^` is an operation of an abelian group: digit by digit, with fuel for the longest operand.
differ_comm : (x y : ℕ) → differ x y ≡ differ y x
differ_comm zero zero = refl
differ_comm zero (suc y) = refl
differ_comm (suc x) zero = refl
differ_comm (suc x) (suc y) = differ_comm x y

differ_assoc : (x y z : ℕ) → x < 2 → y < 2 → z < 2 → differ (differ x y) z ≡ differ x (differ y z)
differ_assoc zero y z p q r = refl
differ_assoc (suc zero) zero z p q r = refl
differ_assoc (suc zero) (suc zero) zero p q r = refl
differ_assoc (suc zero) (suc zero) (suc zero) p q r = refl
differ_assoc (suc (suc x)) y z p q r = absurd (omega arith)
differ_assoc (suc zero) (suc (suc y)) z p q r = absurd (omega arith)
differ_assoc (suc zero) (suc zero) (suc (suc z)) p q r = absurd (omega arith)

bit_xor_halves :
    (a b : ℕ)
    → (bit_xor a b / 2 ≡ bit_xor (a / 2) (b / 2)) × (bit_xor a b % 2 ≡ differ (a % 2) (b % 2))
bit_xor_halves a b =
    omega (arith, bit_xor_step a b, differ-lt (a % 2) (b % 2) (omega arith) (omega arith))

bit_xor_comm_below : (n a b : ℕ) → a ≤ n → b ≤ n → bit_xor a b ≡ bit_xor b a
bit_xor_comm_below zero zero zero p q = refl
bit_xor_comm_below zero (suc a) b p q = absurd (omega arith)
bit_xor_comm_below zero zero (suc b) p q = absurd (omega arith)
bit_xor_comm_below (suc n) a b p q = omega (
  arith,
  bit_xor_step a b,
  bit_xor_step b a,
  differ_comm (a % 2) (b % 2),
  bit_xor_comm_below n (a / 2) (b / 2) (omega arith) (omega arith),
)

bit_xor_assoc_below :
    (n a b c : ℕ) → a ≤ n → b ≤ n → c ≤ n → bit_xor (bit_xor a b) c ≡ bit_xor a (bit_xor b c)
bit_xor_assoc_below zero zero zero zero p q r = refl
bit_xor_assoc_below zero (suc a) b c p q r = absurd (omega arith)
bit_xor_assoc_below zero zero (suc b) c p q r = absurd (omega arith)
bit_xor_assoc_below zero zero zero (suc c) p q r = absurd (omega arith)
bit_xor_assoc_below (suc n) a b c p q r =
    let (ab, ab') = bit_xor_halves a b in
    let (bc, bc') = bit_xor_halves b c in
    let left = bit_xor_step (bit_xor a b) c in
    let right = bit_xor_step a (bit_xor b c) in
    rw (left, right, ab, ab', bc, bc')
      (omega (
        arith,
        differ_assoc (a % 2) (b % 2) (c % 2) (omega arith) (omega arith) (omega arith),
        bit_xor_assoc_below n (a / 2) (b / 2) (c / 2) (omega arith) (omega arith) (omega arith),
      ))

pub bit_xor_comm : (a b : ℕ) → bit_xor a b ≡ bit_xor b a
bit_xor_comm a b = bit_xor_comm_below (a + b) a b (omega arith) (omega arith)

pub bit_xor_assoc : (a b c : ℕ) → bit_xor (bit_xor a b) c ≡ bit_xor a (bit_xor b c)
bit_xor_assoc a b c =
    bit_xor_assoc_below (a + b + c) a b c (omega arith) (omega arith) (omega arith)

pub bit_xor-half : (a b : ℕ) → bit_xor a b / 2 ≡ bit_xor (a / 2) (b / 2)
bit_xor-half a b = (bit_xor_halves a b).0

-- The parity of a sum of two, by cases.
pub bit_xor-parity : (a b : ℕ) → bit_xor a b % 2 ≡ (a % 2 + b % 2) % 2
bit_xor-parity a b =
    omega (arith, (bit_xor_halves a b).1, digits_of (a % 2) (b % 2) (omega arith) (omega arith))
  where
    digits_of : (x y : ℕ) → x < 2 → y < 2 → differ x y ≡ (x + y) % 2
    digits_of zero y p q = omega arith
    digits_of (suc zero) zero p q = refl
    digits_of (suc zero) (suc zero) p q = refl
    digits_of (suc zero) (suc (suc y)) p q = absurd (omega arith)
    digits_of (suc (suc x)) y p q = absurd (omega arith)

bit_xor_self_below : (n a : ℕ) → a ≤ n → bit_xor a a ≡ 0
bit_xor_self_below n zero h = refl
bit_xor_self_below zero (suc a) h = absurd (omega arith)
bit_xor_self_below (suc n) (suc a) h = omega (
  arith,
  bit_xor-half (suc a) (suc a),
  bit_xor-parity (suc a) (suc a),
  bit_xor_self_below n (suc a / 2) (omega arith),
)

pub bit_xor_self : (a : ℕ) → bit_xor a a ≡ 0
bit_xor_self a = bit_xor_self_below a a (omega arith)

-- `h << k` and a number of `k` bits have no digit in common.
pub bit_xor-disjoint : (k h l : ℕ) → l < 2 ^ k → bit_xor (h * 2 ^ k) l ≡ h * 2 ^ k + l
bit_xor-disjoint k h l p =
    ground (arith, bit_xor_fields k h 0 l (one-le-pow k 2 (omega arith)) p, zero-bit_xor l)

-- `m` added to both sides, and to the right one.
pub bit_xor_right : (a b m : ℕ) → bit_xor a (bit_xor b m) ≡ bit_xor (bit_xor a b) m
bit_xor_right a b m = sym (bit_xor_assoc a b m)

pub bit_xor_left : (a b m : ℕ) → bit_xor (bit_xor a m) b ≡ bit_xor (bit_xor a b) m
bit_xor_left a b m = rw (bit_xor_assoc, bit_xor_comm m b) (sym (bit_xor_assoc a b m))

pub bit_xor_pairs : (a b m : ℕ) → bit_xor (bit_xor a m) (bit_xor b m) ≡ bit_xor a b
bit_xor_pairs a b m =
    bit_xor_left a (bit_xor b m) m
    ∙ ap (λ t. bit_xor t m) (bit_xor_right a b m)
    ∙ bit_xor_assoc (bit_xor a b) m m
    ∙ ap (bit_xor (bit_xor a b)) (bit_xor_self m)
    ∙ bit_xor-zero (bit_xor a b)
