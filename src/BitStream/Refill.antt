-- ===== src/BitStream/Refill.antt =====
-- src/bitstream.rs: `next_bits` when it fills the word again.
use rust_delharc.Prelude.{
  ℕ, zero, suc, ◌+◌, ◌-◌, ◌*◌, ◌/◌, ◌%◌, ◌^◌, ◌≤◌, ◌<◌, ◌≡◌, refl, sym, ap, ◌∙◌, inl, inr, false,
  Bool-cases, ==_iff, ltb-false, List, [], ◌∷◌, ◌++◌, length, replicate, All, ltb, ◌==◌,
  if◌then◌else◌, arith, u64, bit_and, bit_or, length-replicate,
}
use mathlib.Core.Path.{ap₂}
use native.Mathlib.Nat.{
  pow-suc, one-le-pow, div-add-mod', mod-lt, mul-lt-mul_of_pos_right, mul-le-mul_right,
  mul-div-mul_right, div-lt_iff_lt-mul,
}
use rust_delharc.Prelude.Bits.{bit_or_low}
use rust_delharc.Outcome.{ok}
use rust_delharc.StubIo.{Read}
use rust_delharc.BitStream.{BitStream, from_be_bytes, padded, refill}
use rust_delharc.BitStream.Marker.{two_pow-add, fields-mod, clear_lowest, marked-pos}

abbrev pub be : List ℕ → ℕ
be bs = from_be_bytes 0 bs

byte_weight : (n : ℕ) → 2 ^ (8 * suc n) ≡ 256 * 2 ^ (8 * n)
byte_weight n = let e : 8 * suc n ≡ 8 + 8 * n = omega arith in rw e (two_pow-add 8 (8 * n))

from_be_bytes-sum :
    (acc : ℕ) (bs : List ℕ) → from_be_bytes acc bs ≡ acc * 2 ^ (8 * length bs) + be bs
unfolding from_be_bytes
from_be_bytes-sum acc [] = omega arith
from_be_bytes-sum acc (b ∷ bs) = omega (
  arith,
  from_be_bytes-sum (acc * 256 + b) bs,
  from_be_bytes-sum (0 * 256 + b) bs,
  ap (λ (t : ℕ). acc * t) (byte_weight (length bs)),
)

pub be_cons : (b : ℕ) (bs : List ℕ) → be (b ∷ bs) ≡ b * 2 ^ (8 * length bs) + be bs
unfolding from_be_bytes
be_cons b bs =
    let first : 0 + b ≡ b = omega arith in
    ap (λ (k : ℕ). from_be_bytes k bs) first ∙ from_be_bytes-sum b bs

pub be-lt : (bs : List ℕ) → All (λ b. b < 256) bs → be bs < 2 ^ (8 * length bs)
unfolding from_be_bytes
be-lt [] h = omega arith
be-lt (b ∷ bs) (h, hs) = omega (
  arith,
  be_cons b bs,
  be-lt bs hs,
  byte_weight (length bs),
  mul-le-mul_right {m = b} {n = 255} (2 ^ (8 * length bs)) (omega arith),
)

pub be-append : (xs ys : List ℕ) → be (xs ++ ys) ≡ be xs * 2 ^ (8 * length ys) + be ys
unfolding from_be_bytes
be-append xs ys = loop 0 xs
  where
    loop :
        (acc : ℕ) (zs : List ℕ)
        → from_be_bytes acc (zs ++ ys) ≡ from_be_bytes acc zs * 2 ^ (8 * length ys) + be ys
    loop acc [] = from_be_bytes-sum acc ys
    loop acc (z ∷ zs) = loop (acc * 256 + z) zs

be-zeros : (n : ℕ) → be (replicate n 0) ≡ 0
unfolding from_be_bytes
be-zeros zero = refl
be-zeros (suc n) = be-zeros n

be-padded : (bs : List ℕ) → length bs ≤ 8 → be (padded bs) ≡ be bs * 2 ^ (64 - 8 * length bs)
be-padded bs h =
    let e : 8 * (8 - length bs) ≡ 64 - 8 * length bs = omega arith in
    be-append bs (replicate (8 - length bs) 0)
    ∙ (rw (length-replicate {A = ℕ} (8 - length bs) 0, be-zeros (8 - length bs), e) (omega arith))

-- `X` is what was read, in `8 * size` bits, of which `missing` are wanted and `e` are kept.
module _ (X size missing e : ℕ) (read : missing + e ≡ 8 * size) (few : size ≤ 8)
    (some_missing : 0 < missing) (in_range : X < 2 ^ (8 * size)) where
  pub refill_bits : X * 2 ^ (64 - 8 * size) / 2 ^ (64 - missing) ≡ X / 2 ^ e
  refill_bits =
      let w : 64 - missing ≡ e + (64 - 8 * size) = omega arith in
      rw (w, two_pow-add e (64 - 8 * size))
        (mul-div-mul_right X (2 ^ e) (one-le-pow (64 - 8 * size) 2 (omega arith)))

  pub refill_small : X / 2 ^ e < 2 ^ missing
  refill_small =
      let w : 2 ^ (8 * size) ≡ 2 ^ missing * 2 ^ e =
        ap (λ (k : ℕ). 2 ^ k) (sym read) ∙ two_pow-add missing e in
      (div-lt_iff_lt-mul {x = X} {y = 2 ^ missing} (one-le-pow e 2 (omega arith))).1 (omega arith)

  pub refill_kept : u64 (X * 2 ^ (64 - 8 * size) * 2 ^ missing) ≡ X % 2 ^ e * 2 ^ (64 - e)
  refill_kept =
      let P = 64 - 8 * size + missing in
      let top : 64 - e ≡ P = omega arith in
      let whole : 2 ^ 64 ≡ 2 ^ e * 2 ^ P =
        let w : e + P ≡ 64 = omega arith in ap (λ (k : ℕ). 2 ^ k) (sym w) ∙ two_pow-add e P in
      let shifted : X * 2 ^ (64 - 8 * size) * 2 ^ missing
          ≡ X / 2 ^ e * (2 ^ e * 2 ^ P) + X % 2 ^ e * 2 ^ P =
        omega (
          arith,
          ap (λ (t : ℕ). X * t) (two_pow-add (64 - 8 * size) missing),
          ap (λ (t : ℕ). t * 2 ^ P) (div-add-mod' X (2 ^ e)),
        ) in
      ap (λ (t : ℕ). X * 2 ^ (64 - 8 * size) * 2 ^ missing % t) whole
      ∙ ap (λ (t : ℕ). t % (2 ^ e * 2 ^ P)) shifted
      ∙ fields-mod (X / 2 ^ e) (X % 2 ^ e * 2 ^ P) (2 ^ e * 2 ^ P) (
          mul-lt-mul_of_pos_right (mod-lt X (one-le-pow e 2 (omega arith)))
            (one-le-pow P 2 (omega arith)))
      ∙ ap (λ (k : ℕ). X % 2 ^ e * 2 ^ k) (sym top)

  pub refill_mark :
      bit_or (X % 2 ^ e * 2 ^ (64 - e)) (1 * 2 ^ (63 - e)) ≡ (2 * (X % 2 ^ e) + 1) * 2 ^ (63 - e)
  refill_mark =
      let t : 64 - e ≡ suc (63 - e) = omega arith in
      let w : 2 ^ (64 - e) ≡ 2 ^ (63 - e) * 2 = rw t (pow-suc 2 (63 - e)) in
      let pos : 0 < 2 ^ (63 - e) = one-le-pow (63 - e) 2 (omega arith) in
      bit_or_low (64 - e) (X % 2 ^ e) (1 * 2 ^ (63 - e)) (omega arith)
      ∙ omega (arith, ap (λ (t : ℕ). X % 2 ^ e * t) w)

  -- All of the word is replaced when 64 bits were missing.
  pub refill_word :
      missing ≤ 64
      → bit_or
          (if missing == 64 then 0 else u64 (X * 2 ^ (64 - 8 * size) * 2 ^ missing))
          (1 * 2 ^ (63 - e))
        ≡ (2 * (X % 2 ^ e) + 1) * 2 ^ (63 - e)
  refill_word h = elim (Bool-cases (missing == 64)) [
    | inl all ↦
        let m : missing ≡ 64 = (==_iff _ _).0 all in
        let none_kept : e ≡ 0 = omega arith in
        rw (all, none_kept) (let one : X % 1 ≡ 0 = omega arith in rw one refl)
    | inr other ↦ rw (other, refill_kept) refill_mark
  ]

module _ (rd : Read) (v missing e : ℕ) (bytes : List ℕ) (r : rd.Reader) (s : BitStream rd)
    (read : missing + e ≡ 8 * length bytes) (few : length bytes ≤ 8) (some_missing : 0 < missing)
    (h : All (λ b. b < 256) bytes) where
  pub refill_lem :
      refill rd ((2 * v + 1) * 2 ^ (missing - 1)) missing bytes r s
      ≡ ok
          (v * 2 ^ missing + be bytes / 2 ^ e)
          (record { inner = r; bits_buf = (2 * (be bytes % 2 ^ e) + 1) * 2 ^ (63 - e) })
  unfolding refill
  refill_lem =
      let enough : ltb (8 * length bytes) missing ≡ false = ltb-false _ _ (omega arith) in
      let res = (2 * v + 1) * 2 ^ (missing - 1) in
      let nonzero : (res == 0) ≡ false = let pos = marked-pos v (missing - 1) in ground arith in
      let m : missing - 1 + 1 ≡ missing = omega arith in
      let left : 8 * length bytes - missing ≡ e = omega arith in
      let cleared : bit_and res (res - 1) ≡ v * 2 ^ missing =
        clear_lowest (missing - 1) v ∙ ap (λ (k : ℕ). v * 2 ^ k) m in
      let small = be-lt bytes h in
      rw
        (
          enough,
          nonzero,
          be-padded bytes few,
          cleared,
          refill_bits (be bytes) (length bytes) missing e read few some_missing small,
          left,
        )
        (ap₂ (λ (x word : ℕ). ok x (record { inner = r; bits_buf = word }))
          (bit_or_low missing v (be bytes / 2 ^ e)
            (refill_small (be bytes) (length bytes) missing e read few some_missing small))
          (refill_word (be bytes) (length bytes) missing e read few some_missing small
            (omega arith)))
