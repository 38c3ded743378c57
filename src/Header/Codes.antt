-- ===== src/Header/Codes.antt =====
-- src/header/compression.rs and src/header/ostype.rs: the codes in a header and the enums that they
-- stand for.
use rust_delharc.Prelude.{ℕ, ◌≡◌, refl, sym, ap, ◌∙◌, ◌↔◌, true, some, List, [], ◌∷◌, arith}
use rust_delharc.Header.Compression
use rust_delharc.Header.Compression.{CompressionMethod, as_identifier, eq_bytes}
use rust_delharc.Header.OsTypes
use rust_delharc.Header.OsTypes.{OsType, to_u8}

eq_bytes_sound : (s t : List ℕ) → eq_bytes s t ≡ true → s ≡ t
unfolding eq_bytes
eq_bytes_sound [] [] h = refl
eq_bytes_sound [] (b ∷ t) h = cc
eq_bytes_sound (a ∷ s) [] h = cc
eq_bytes_sound (a ∷ s) (b ∷ t) h = ground (arith, eq_bytes_sound s t)

-- A number is accepted as an operating system exactly if it is the code of that system.
pub OsType-iff : (b : ℕ) (t : OsType) → (OsTypes.try_from b ≡ some t) ↔ (to_u8 t ≡ b)
unfolding OsTypes.try_from to_u8
OsType-iff b t = ground arith

try_from-as_identifier : (m : CompressionMethod) → Compression.try_from (as_identifier m) ≡ some m
unfolding Compression.try_from as_identifier eq_bytes
try_from-as_identifier m = ground arith

as_identifier-try_from :
    (s : List ℕ) (m : CompressionMethod) → Compression.try_from s ≡ some m → as_identifier m ≡ s
unfolding Compression.try_from as_identifier
as_identifier-try_from s m e = ground (arith, eq_bytes_sound s)

-- Bytes are accepted as a compression method exactly if they are the identifier of that method.
pub CompressionMethod-iff :
    (s : List ℕ) (m : CompressionMethod) → (Compression.try_from s ≡ some m) ↔ (as_identifier m ≡ s)
CompressionMethod-iff s m =
    (as_identifier-try_from s m, λ e. ap Compression.try_from (sym e) ∙ try_from-as_identifier m)
