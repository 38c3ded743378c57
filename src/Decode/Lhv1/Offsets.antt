-- ===== src/Decode/Lhv1/Offsets.antt =====
-- src/decode/lhv1.rs: the offsets that `decode_offset` gives.
use rust_delharc.Prelude.{
  ℕ, ◌+◌, ◌^◌, ◌≤◌, ◌<◌, ◌≡◌, refl, Bool, ◌&&◌, Option, none, some, leb, ◌==◌, ◌%◌, arith,
  agree_below, agree_below_sound, if◌then◌else◌, true, false,
}
use rust_delharc.Decode.Lhv1.{decode_offset}

-- The upper bits that the next nine bits decode to, and the end of the window behind the last ones.
abbrev pub offset_after : ℕ → ℕ
unfolding decode_offset
offset_after bits9 = elim (bits9 == 511) [
  | true ↦ 4096
  | false ↦ elim (decode_offset (bits9 + 1)) [ some (offset, bits) ↦ offset | none ↦ 0 ]
]

tiles : Option (ℕ × ℕ) → ℕ → Bool
tiles none after = false
tiles (some (offset, bits)) after =
    leb bits 5 && (offset % 2 ^ bits == 0 && offset + 2 ^ bits == after)

tiles-inv :
    (d : Option (ℕ × ℕ)) (after : ℕ)
    → tiles d after ≡ true
    → (offset : ℕ) × (bits : ℕ) × (d ≡ some (offset, bits))
      × (bits ≤ 5)
      × (offset % 2 ^ bits ≡ 0)
      × (offset + 2 ^ bits ≡ after)
unfolding tiles
tiles-inv none after h = cc
tiles-inv (some (offset, bits)) after h =
    (offset, bits, refl, ground arith, ground arith, ground arith)

all_tiles :
    agree_below (λ b. if tiles (decode_offset b) (offset_after b) then 1 else 0) (λ b. 1) 512 ≡ true
unfolding agree_below tiles decode_offset offset_after
all_tiles = refl

-- Any nine bits decode to the upper bits of an offset and a number of at most five bits that are
-- still to be read, in whose place there are zeros; the ranges of offsets that follow on one
-- another end at the size of the window, without a gap or an overlap.
pub decode_offset_lem :
    (bits9 : ℕ)
    → bits9 < 512
    → (offset : ℕ) × (bits : ℕ) × (decode_offset bits9 ≡ some (offset, bits))
      × (bits ≤ 5)
      × (offset % 2 ^ bits ≡ 0)
      × (offset + 2 ^ bits ≡ offset_after bits9)
decode_offset_lem bits9 h = tiles-inv (decode_offset bits9) (offset_after bits9) (
    true_inv _ (
      agree_below_sound (λ b. if tiles (decode_offset b) (offset_after b) then 1 else 0) (λ b. 1)
        512 bits9 all_tiles h))
  where
    true_inv : (t : Bool) → ◌≡◌ {A = ℕ} (if t then 1 else 0) 1 → t ≡ true
    true_inv t e = ground arith
