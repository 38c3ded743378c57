-- ===== src/Decode/Target.antt =====
-- What the `fill_buffer` methods of src/decode/ share: the loop over the target buffer, and
-- `copy_progress`, the part of a copy that did not fit the last buffer.
use rust_delharc.Prelude.{
  ℕ, zero, suc, ◌-◌, true, false, Option, none, some, List, [], ◌++◌, length, u16, u32, ◌==◌,
  if◌then◌else◌,
}
use rust_delharc.Outcome.{Prog, out_of_fuel, ◌>>=◌, ret}

-- `while let Some(dst) = target.next() { … }`. The body is given the number of bytes left in the
-- target, that of `dst` included, and returns those that it writes. It writes one at least, so the
-- length of the target is fuel enough.
module _ {E S : Type 0} (body : ℕ → Prog E S (List ℕ)) where
  unfoldable pub while_target : ℕ → ℕ → Prog E S (List ℕ)
  while_target zero left s = elim (left == 0) [ true ↦ ret [] s | false ↦ out_of_fuel ]
  while_target (suc fuel) left s = elim (left == 0) [
    | true ↦ ret [] s
    | false ↦
        (do bytes ← body left; rest ← while_target fuel (left - length bytes); ret (bytes ++ rest))
          s
  ]

-- `NonZeroU16::new(count as u16).map(|count| (pos as u16, count))`
unfoldable pub progress_u16 : ℕ → ℕ → Option (ℕ × ℕ)
progress_u16 pos count = let c = u16 count in if c == 0 then none else some (u16 pos, c)

-- The same with 32 bits.
unfoldable pub progress_u32 : ℕ → ℕ → Option (ℕ × ℕ)
progress_u32 pos count = let c = u32 count in if c == 0 then none else some (u32 pos, c)
