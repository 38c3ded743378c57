-- ===== src/StaticTree/Canonical.antt =====
-- The canonical Huffman code of a list of code lengths, as RFC 1951 numbers it: the codes of one
-- length follow each other in the order of their values, and the first code of a length is twice
-- the number behind the last code of the length before. This is what the codes of
-- src/statictree.rs are compared with.
use rust_delharc.Prelude.{
  ℕ, zero, suc, ◌+◌, ◌*◌, ◌/◌, ◌%◌, ◌^◌, ◌≤◌, ◌<◌, ◌≡◌, refl, inl, inr, ◌⊎◌, Bool-cases, List, [],
  ◌∷◌, ◌++◌, length, length-append, All, take, get_or, ◌==◌, ==_iff, if◌then◌else◌, arith,
}

-- How many values have a code of a length.
unfoldable pub codes_of_length : ℕ → List ℕ → ℕ
codes_of_length l [] = 0
codes_of_length l (x ∷ lens) =
    let rest = codes_of_length l lens in if x == l then suc rest else rest

unfoldable pub first_code : List ℕ → ℕ → ℕ
unfolding codes_of_length
first_code lens zero = 0
first_code lens (suc zero) = 0
first_code lens (suc (suc l)) = 2 * (first_code lens (suc l) + codes_of_length (suc l) lens)

unfoldable pub code : List ℕ → ℕ → ℕ
unfolding first_code
code lens v = first_code lens (get_or lens v 0) + codes_of_length (get_or lens v 0) (take v lens)

-- So many low bits of a number, the highest first.
unfoldable pub low_bits : ℕ → ℕ → List ℕ
low_bits zero x = []
low_bits (suc n) x = low_bits n (x / 2) ++ x % 2 ∷ []

unfoldable pub code_bits : List ℕ → ℕ → List ℕ
unfolding code low_bits
code_bits lens v = low_bits (get_or lens v 0) (code lens v)

-- The number that bits make behind a number.
unfoldable pub with_bits : ℕ → List ℕ → ℕ
with_bits x [] = x
with_bits x (b ∷ bs) = with_bits (2 * x + b) bs

with_bits-snoc : (x : ℕ) (bs : List ℕ) (b : ℕ) → with_bits x (bs ++ b ∷ []) ≡ 2 * with_bits x bs + b
unfolding with_bits
with_bits-snoc x [] b = refl
with_bits-snoc x (c ∷ bs) b = with_bits-snoc (2 * x + c) bs b

pub length-low_bits : (n x : ℕ) → length (low_bits n x) ≡ n
unfolding low_bits
length-low_bits zero x = refl
length-low_bits (suc n) x =
    omega (arith, length-append (low_bits n (x / 2)) (x % 2 ∷ []), length-low_bits n (x / 2))

pub with_bits-low_bits : (n x : ℕ) → x < 2 ^ n → with_bits 0 (low_bits n x) ≡ x
unfolding low_bits with_bits
with_bits-low_bits zero x h = omega arith
with_bits-low_bits (suc n) x h = omega (
  arith,
  with_bits-snoc 0 (low_bits n (x / 2)) (x % 2),
  with_bits-low_bits n (x / 2) (omega arith),
)

-- The values of a length that stand before a value of that length.
pub codes_of_length-take :
    (lens : List ℕ) (v : ℕ)
    → v < length lens
    → codes_of_length (get_or lens v 0) (take v lens) < codes_of_length (get_or lens v 0) lens
unfolding codes_of_length
codes_of_length-take [] v h = absurd (omega arith)
codes_of_length-take (x ∷ lens) zero h = let e = (==_iff x x).1 refl in rw e (omega arith)
codes_of_length-take (x ∷ lens) (suc v) h = elim (Bool-cases (x == get_or lens v 0)) [
  | inl same ↦ rw same (omega (arith, codes_of_length-take lens v (omega arith)))
  | inr other ↦ rw other (codes_of_length-take lens v (omega arith))
]

-- A number below the first code of a length stays below the first code of each longer length when
-- bits are put behind it.
with_bits-lt :
    (lens bits : List ℕ) (l x : ℕ)
    → All (λ b. b < 2) bits
    → x < first_code lens (suc l)
    → with_bits x bits < first_code lens (suc l + length bits)
unfolding with_bits first_code
with_bits-lt lens [] l x b h = let e : suc l + 0 ≡ suc l = omega arith in rw e h
with_bits-lt lens (b ∷ bits) l x (h, hs) below =
    let e : suc l + suc (length bits) ≡ suc (suc l) + length bits = omega arith in
    rw e (with_bits-lt lens bits (suc l) (2 * x + b) hs (omega arith))

-- So a code of a longer length starts behind the codes of a length: no code is a prefix of another.
pub code-behind :
    (lens bits : List ℕ) (l x v b : ℕ)
    → All (λ c. c < 2) (b ∷ bits)
    → suc l + length (b ∷ bits) ≡ get_or lens v 0
    → with_bits x (b ∷ bits) ≡ code lens v
    → first_code lens (suc l) + codes_of_length (suc l) lens ≤ x
unfolding with_bits first_code code
code-behind lens bits l x v b (h, hs) e c = elim (le-or-lt x) [
  | inl behind ↦ behind
  | inr before ↦
      let below = with_bits-lt lens bits (suc l) (2 * x + b) hs (omega arith) in
      let e' : suc (suc l) + length bits ≡ get_or lens v 0 = omega arith in
      absurd (omega (arith, rw e' at below))
]
  where
    le-or-lt :
        (y : ℕ)
        → (first_code lens (suc l) + codes_of_length (suc l) lens ≤ y)
          ⊎ (y < first_code lens (suc l) + codes_of_length (suc l) lens)
    le-or-lt y = ground arith
