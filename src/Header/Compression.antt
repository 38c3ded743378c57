-- ===== src/Header/Compression.antt =====
-- src/header/compression.rs: the compression methods and their identifiers, arrays of five bytes.
use rust_delharc.Prelude.{
  ℕ, Bool, true, false, ◌&&◌, Option, none, some, List, [], ◌∷◌, ◌==◌, if◌then◌else◌,
}

pub data CompressionMethod : Type 0 where
  lhd lzs lz4 lz5 lh0 lh1 lh4 lh5 lh6 lh7 lhx pm0 pm1 pm2 : CompressionMethod

-- The comparison of a pattern.
unfoldable pub eq_bytes : List ℕ → List ℕ → Bool
eq_bytes [] [] = true
eq_bytes (a ∷ s) (b ∷ t) = a == b && eq_bytes s t
eq_bytes _ _ = false

unfoldable pub as_identifier : CompressionMethod → List ℕ
as_identifier lhd = b'-' ∷ b'l' ∷ b'h' ∷ b'd' ∷ b'-' ∷ []
as_identifier lzs = b'-' ∷ b'l' ∷ b'z' ∷ b's' ∷ b'-' ∷ []
as_identifier lz4 = b'-' ∷ b'l' ∷ b'z' ∷ b'4' ∷ b'-' ∷ []
as_identifier lz5 = b'-' ∷ b'l' ∷ b'z' ∷ b'5' ∷ b'-' ∷ []
as_identifier lh0 = b'-' ∷ b'l' ∷ b'h' ∷ b'0' ∷ b'-' ∷ []
as_identifier lh1 = b'-' ∷ b'l' ∷ b'h' ∷ b'1' ∷ b'-' ∷ []
as_identifier lh4 = b'-' ∷ b'l' ∷ b'h' ∷ b'4' ∷ b'-' ∷ []
as_identifier lh5 = b'-' ∷ b'l' ∷ b'h' ∷ b'5' ∷ b'-' ∷ []
as_identifier lh6 = b'-' ∷ b'l' ∷ b'h' ∷ b'6' ∷ b'-' ∷ []
as_identifier lh7 = b'-' ∷ b'l' ∷ b'h' ∷ b'7' ∷ b'-' ∷ []
as_identifier lhx = b'-' ∷ b'l' ∷ b'h' ∷ b'x' ∷ b'-' ∷ []
as_identifier pm0 = b'-' ∷ b'p' ∷ b'm' ∷ b'0' ∷ b'-' ∷ []
as_identifier pm1 = b'-' ∷ b'p' ∷ b'm' ∷ b'1' ∷ b'-' ∷ []
as_identifier pm2 = b'-' ∷ b'p' ∷ b'm' ∷ b'2' ∷ b'-' ∷ []

-- `impl TryFrom<&[u8;5]> for CompressionMethod`; `none` is the error
-- `UnrecognizedCompressionMethod`.
unfoldable pub try_from : List ℕ → Option CompressionMethod
unfolding eq_bytes
try_from s =
    if eq_bytes s (b'-' ∷ b'l' ∷ b'h' ∷ b'd' ∷ b'-' ∷ [])
    then some lhd
    else if eq_bytes s (b'-' ∷ b'l' ∷ b'z' ∷ b's' ∷ b'-' ∷ [])
    then some lzs
    else if eq_bytes s (b'-' ∷ b'l' ∷ b'z' ∷ b'4' ∷ b'-' ∷ [])
    then some lz4
    else if eq_bytes s (b'-' ∷ b'l' ∷ b'z' ∷ b'5' ∷ b'-' ∷ [])
    then some lz5
    else if eq_bytes s (b'-' ∷ b'l' ∷ b'h' ∷ b'0' ∷ b'-' ∷ [])
    then some lh0
    else if eq_bytes s (b'-' ∷ b'l' ∷ b'h' ∷ b'1' ∷ b'-' ∷ [])
    then some lh1
    else if eq_bytes s (b'-' ∷ b'l' ∷ b'h' ∷ b'4' ∷ b'-' ∷ [])
    then some lh4
    else if eq_bytes s (b'-' ∷ b'l' ∷ b'h' ∷ b'5' ∷ b'-' ∷ [])
    then some lh5
    else if eq_bytes s (b'-' ∷ b'l' ∷ b'h' ∷ b'6' ∷ b'-' ∷ [])
    then some lh6
    else if eq_bytes s (b'-' ∷ b'l' ∷ b'h' ∷ b'7' ∷ b'-' ∷ [])
    then some lh7
    else if eq_bytes s (b'-' ∷ b'l' ∷ b'h' ∷ b'x' ∷ b'-' ∷ [])
    then some lhx
    else if eq_bytes s (b'-' ∷ b'p' ∷ b'm' ∷ b'0' ∷ b'-' ∷ [])
    then some pm0
    else if eq_bytes s (b'-' ∷ b'p' ∷ b'm' ∷ b'1' ∷ b'-' ∷ [])
    then some pm1
    else if eq_bytes s (b'-' ∷ b'p' ∷ b'm' ∷ b'2' ∷ b'-' ∷ [])
    then some pm2
    else none

unfoldable pub is_directory : CompressionMethod → Bool
is_directory lhd = true
is_directory _ = false
