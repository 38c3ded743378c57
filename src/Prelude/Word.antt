-- ===== src/Prelude/Word.antt =====
-- Machine words as native numbers: a cast to `w` bits is `% 2 ^ w`, a shift is `/` or `*` by `2 ^ k`.
use Prim.Native.Nat.{ℕ, ◌*◌, ◌/◌, ◌%◌, ◌^◌}

abbrev pub u8 : ℕ → ℕ
u8 x = x % 256

abbrev pub u16 : ℕ → ℕ
u16 x = x % 65536

abbrev pub u32 : ℕ → ℕ
u32 x = x % 2 ^ 32

-- `usize` and `u64`: a 64-bit target.
abbrev pub u64 : ℕ → ℕ
u64 x = x % 2 ^ 64

infixl 60 ◌<<<◌ ◌>>>◌
abbrev pub ◌<<<◌ : ℕ → ℕ → ℕ
x <<< k = x * 2 ^ k

abbrev pub ◌>>>◌ : ℕ → ℕ → ℕ
x >>> k = x / 2 ^ k
