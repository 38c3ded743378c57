-- ===== src/Header/Bytes.antt =====
-- src/header/parser.rs: little-endian numbers, the checksum of levels 0 and 1, and the identifiers
-- of extra headers.
use rust_delharc.Prelude.{ℕ, ◌+◌, ◌*◌, Option, none, some, List, [], ◌∷◌, u8}

-- `from_le_bytes`
abbrev pub from_le_bytes : List ℕ → ℕ
from_le_bytes [] = 0
from_le_bytes (b ∷ bs) = b + 256 * from_le_bytes bs

unfoldable pub read_u16 : List ℕ → Option ℕ
read_u16 (lo ∷ hi ∷ []) = some (from_le_bytes (lo ∷ hi ∷ []))
read_u16 _ = none

unfoldable pub read_u32 : List ℕ → Option ℕ
read_u32 (b0 ∷ b1 ∷ b2 ∷ b3 ∷ []) = some (from_le_bytes (b0 ∷ b1 ∷ b2 ∷ b3 ∷ []))
read_u32 _ = none

unfoldable pub read_u64 : List ℕ → Option ℕ
read_u64 (b0 ∷ b1 ∷ b2 ∷ b3 ∷ b4 ∷ b5 ∷ b6 ∷ b7 ∷ []) =
    some (from_le_bytes (b0 ∷ b1 ∷ b2 ∷ b3 ∷ b4 ∷ b5 ∷ b6 ∷ b7 ∷ []))
read_u64 _ = none

-- The sum of `Wrapping<u8>` values.
abbrev wrapping_sum : List ℕ → ℕ
wrapping_sum [] = 0
wrapping_sum (b ∷ bs) = u8 (b + wrapping_sum bs)

unfoldable pub wrapping_csum : ℕ → List ℕ → ℕ
wrapping_csum init bytes = u8 (wrapping_sum bytes + init)

-- `mod ext`
abbrev pub ext_header_common : ℕ
ext_header_common = 0x00

abbrev pub ext_header_filename : ℕ
ext_header_filename = 0x01

abbrev pub ext_header_path : ℕ
ext_header_path = 0x02

abbrev pub ext_header_comment : ℕ
ext_header_comment = 0x3f

abbrev pub ext_header_msdos_attrs : ℕ
ext_header_msdos_attrs = 0x40

abbrev pub ext_header_msdos_time : ℕ
ext_header_msdos_time = 0x41

abbrev pub ext_header_msdos_size : ℕ
ext_header_msdos_size = 0x42

abbrev pub ext_header_unix_time : ℕ
ext_header_unix_time = 0x54

abbrev pub ext_header_ext_attrs : ℕ
ext_header_ext_attrs = 0x7f
