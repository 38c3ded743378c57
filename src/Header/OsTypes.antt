-- ===== src/Header/OsTypes.antt =====
-- src/header/ostype.rs: the identifiers of operating systems.
use rust_delharc.Prelude.{ℕ, Option, none, some, ◌==◌, if◌then◌else◌}

pub data OsType : Type 0 where
  generic ms_dos win95 win_nt unix os2 mac_os amiga atari java : OsType
  cpm flex_os runser towns_os os9 osk os386 human68k xosk : OsType

-- `impl From<OsType> for u8`
unfoldable pub to_u8 : OsType → ℕ
to_u8 generic = 0x00
to_u8 ms_dos = b'M'
to_u8 win95 = b'w'
to_u8 win_nt = b'W'
to_u8 unix = b'U'
to_u8 os2 = b'2'
to_u8 mac_os = b'm'
to_u8 amiga = b'A'
to_u8 atari = b'a'
to_u8 java = b'J'
to_u8 cpm = b'C'
to_u8 flex_os = b'F'
to_u8 runser = b'R'
to_u8 towns_os = b'T'
to_u8 os9 = b'9'
to_u8 osk = b'K'
to_u8 os386 = b'3'
to_u8 human68k = b'H'
to_u8 xosk = b'X'

-- `impl TryFrom<u8> for OsType`; `none` is the error `UnrecognizedOsType`.
unfoldable pub try_from : ℕ → Option OsType
try_from ostype =
    if ostype == 0x00
    then some generic
    else if ostype == b'M'
    then some ms_dos
    else if ostype == b'w'
    then some win95
    else if ostype == b'W'
    then some win_nt
    else if ostype == b'U'
    then some unix
    else if ostype == b'2'
    then some os2
    else if ostype == b'm'
    then some mac_os
    else if ostype == b'A'
    then some amiga
    else if ostype == b'a'
    then some atari
    else if ostype == b'J'
    then some java
    else if ostype == b'C'
    then some cpm
    else if ostype == b'F'
    then some flex_os
    else if ostype == b'R'
    then some runser
    else if ostype == b'T'
    then some towns_os
    else if ostype == b'9'
    then some os9
    else if ostype == b'K'
    then some osk
    else if ostype == b'3'
    then some os386
    else if ostype == b'H'
    then some human68k
    else if ostype == b'X'
    then some xosk
    else none
