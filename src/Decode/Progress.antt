-- ===== src/Decode/Progress.antt =====
-- src/decode/: `copy_progress`, of 16 bits in lzs.rs and lz5.rs and of 32 bits in lhv2.rs.
use rust_delharc.Prelude.{
  ℕ, ◌+◌, ◌^◌, ◌<◌, ◌≡◌, refl, false, inl, inr, Bool-cases, Option, none, some, u16, u32, ◌==◌,
  arith,
}
use rust_delharc.Decode.Target.{progress_u16, progress_u32}

-- A copy that is done leaves no progress, and the count of one that is not has 32 bits.
pub progress_u32-none : (offset count : ℕ) → count ≡ 0 → progress_u32 offset count ≡ none
unfolding progress_u32
progress_u32-none offset count e = rw e refl

pub progress_u32-lt : (offset count o k : ℕ) → progress_u32 offset count ≡ some (o, k) → k < 2 ^ 32
unfolding progress_u32
progress_u32-lt offset count o k e = elim (Bool-cases (u32 count == 0)) [
  | inl done ↦ cc (rw done at e)
  | inr more ↦ some_lt (u32 offset) (u32 count) (omega arith) (rw more at e)
]
  where
    some_lt :
        (a b : ℕ) → b < 2 ^ 32 → ◌≡◌ {A = Option (ℕ × ℕ)} (some (a, b)) (some (o, k)) → k < 2 ^ 32
    some_lt a b h q = let same : b ≡ k = cc in rw (← same) h

pub progress_u32-small :
    (offset count : ℕ)
    → 0 < count
    → count < 2 ^ 32
    → progress_u32 offset count ≡ some (u32 offset, count)
unfolding progress_u32
progress_u32-small offset count h k =
    let same : u32 count ≡ count = omega arith in
    let more : (count == 0) ≡ false = ground arith in rw (same, more) refl

pub progress_u32-u32 :
    (offset count : ℕ) → progress_u32 (u32 offset) count ≡ progress_u32 offset count
unfolding progress_u32
progress_u32-u32 offset count =
    let same : u32 (u32 offset) ≡ u32 offset = omega arith in rw same refl

pub progress_u16-none : (pos count : ℕ) → count ≡ 0 → progress_u16 pos count ≡ none
unfolding progress_u16
progress_u16-none pos count e = rw e refl

pub progress_u16-lt : (pos count o k : ℕ) → progress_u16 pos count ≡ some (o, k) → k < 2 ^ 16
unfolding progress_u16
progress_u16-lt pos count o k e = elim (Bool-cases (u16 count == 0)) [
  | inl done ↦ cc (rw done at e)
  | inr more ↦ some_lt (u16 pos) (u16 count) (omega arith) (rw more at e)
]
  where
    some_lt :
        (a b : ℕ) → b < 2 ^ 16 → ◌≡◌ {A = Option (ℕ × ℕ)} (some (a, b)) (some (o, k)) → k < 2 ^ 16
    some_lt a b h q = let same : b ≡ k = cc in rw (← same) h

pub progress_u16-small :
    (pos count : ℕ) → 0 < count → count < 2 ^ 16 → progress_u16 pos count ≡ some (u16 pos, count)
unfolding progress_u16
progress_u16-small pos count h k =
    let same : u16 count ≡ count = omega arith in
    let more : (count == 0) ≡ false = ground arith in rw (same, more) refl

-- The position of 16 bits after two parts of a copy.
pub progress_u16-add :
    (pos m n count : ℕ)
    → progress_u16 (u16 (pos + m) + n) count ≡ progress_u16 (pos + (m + n)) count
unfolding progress_u16
progress_u16-add pos m n count =
    let same : u16 (u16 (pos + m) + n) ≡ u16 (pos + (m + n)) = omega arith in rw same refl
