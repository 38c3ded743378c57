-- ===== src/RingBuf/Default.antt =====
-- src/ringbuf.rs: the ring buffer that `default` makes.
use rust_delharc.Prelude.{
  ℕ, ◌-◌, ◌^◌, ◌≡◌, refl, ◌∙◌, ◌==◌, false, some, bit_and, length-replicate, arith,
}
use native.Mathlib.Nat.{mod_self}
use rust_delharc.Prelude.Bits.{bit_and_mask}
use rust_delharc.RingBuf.{default, spaces}
use rust_delharc.RingBuf.Window

-- For every power of two the assertion of `default` holds, and the buffer that it makes is valid:
-- it is full and its cursor inside.
pub default-IsValid :
    (k : ℕ) → (default (2 ^ k) ≡ some (spaces (2 ^ k))) × Window.IsValid k (spaces (2 ^ k))
unfolding default spaces
default-IsValid k =
    (accepted, record { full = length-replicate (2 ^ k) b' '; inside = Window.size-pos k })
  where
    masked : bit_and (2 ^ k) (2 ^ k - 1) ≡ 0
    masked = bit_and_mask k (2 ^ k) ∙ mod_self (2 ^ k)

    nonzero : (2 ^ k == 0) ≡ false
    nonzero = let pos = Window.size-pos k in ground arith

    accepted : default (2 ^ k) ≡ some (spaces (2 ^ k))
    accepted = rw (nonzero, masked) refl
