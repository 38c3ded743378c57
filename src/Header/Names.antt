-- ===== src/Header/Names.antt =====
-- src/header/parser.rs and src/header.rs: names, paths and comments. A string is the list of its
-- bytes; `reserve` and capacities do not show.
pub mod Printable
pub mod Components
pub mod Unix
use rust_delharc.Prelude.{
  ℕ, zero, suc, ◌+◌, ◌-◌, ◌/◌, ◌%◌, Bool, true, false, not, ◌&&◌, ◌||◌, Option, none, some, List,
  [], ◌∷◌, ◌++◌, take, drop, ltb, leb, ◌==◌, if◌then◌else◌,
}
use rust_delharc.Header.Types.{LhaHeader}
use rust_delharc.Header.Bytes.{ext_header_filename, ext_header_path, ext_header_comment}
use rust_delharc.Header.Compression
use rust_delharc.Header.Compression.{CompressionMethod}
use rust_delharc.Header.OsTypes
use rust_delharc.Header.OsTypes.{OsType, amiga}
use rust_delharc.Header.Extras.{Iteration, done, item, panicked, unfinished, extras}

-- The index of the first item that satisfies a test: `iter().position(…)`, and `memchr`.
unfoldable pub position : (ℕ → Bool) → List ℕ → Option ℕ
position test [] = none
position test (b ∷ bs) =
    let later = elim (position test bs) as (λ x. Option ℕ) [
      | some i ↦ some (suc i)
      | none ↦ none
    ] in
    if test b then some 0 else later

-- The parts of `data.split(…)`: the first one, and the others.
unfoldable pub split : (ℕ → Bool) → List ℕ → List ℕ × List (List ℕ)
split test [] = ([], [])
split test (b ∷ bs) =
    let (part, parts) = split test bs in if test b then ([], part ∷ parts) else (b ∷ part, parts)

unfoldable pub split_data_at_nil_or_end : List ℕ → List ℕ × Option (List ℕ)
unfolding position
split_data_at_nil_or_end bytes = elim (position (λ b. b == 0) bytes) [
  | some index ↦ (take index bytes, some (drop (index + 1) bytes))
  | none ↦ (bytes, none)
]

-- `is_separator` without `std`; with it, the function is the platform's.
unfoldable pub is_separator_no_std : ℕ → Bool
is_separator_no_std c = c == b'/' || c == b'\\'

-- A digit of `{:02x}`.
unfoldable pub hex_digit : ℕ → ℕ
hex_digit d = if ltb d 10 then b'0' + d else b'a' + d - 10

-- `!(0x20..0x7f).contains(&c)`
unfoldable pub is_special : ℕ → Bool
is_special c = not (leb 0x20 c && ltb c 0x7f)

-- "split by all possible path separators"
unfoldable pub is_path_separator : ℕ → Bool
is_path_separator c = c == 0xff || c == b'/' || c == b'\\'

-- `b"."|b".."|[]`
unfoldable pub is_ignored : List ℕ → Bool
is_ignored [] = true
is_ignored (c ∷ []) = c == b'.'
is_ignored (c ∷ d ∷ []) = c == b'.' && d == b'.'
is_ignored _ = false

-- `String::push_str`, after a `/` if the path is not empty.
unfoldable pub push_str : List ℕ → List ℕ → List ℕ
push_str [] name = name
push_str path name = path ++ b'/' ∷ name

-- `parse_os_type`, and the test on it in the methods below.
unfoldable pub parse_os_type : LhaHeader → Option OsType
parse_os_type h = OsTypes.try_from h.os_type

unfoldable pub is_amiga : LhaHeader → Bool
unfolding parse_os_type
is_amiga h = elim (parse_os_type h) [ some amiga ↦ true | _ ↦ false ]

-- `compression_method`
unfoldable pub compression_method : LhaHeader → Option CompressionMethod
compression_method h = Compression.try_from h.compression

-- `LhaHeader::is_directory`
unfoldable pub is_directory : LhaHeader → Bool
unfolding compression_method
is_directory h = elim (compression_method h) [ some m ↦ Compression.is_directory m | none ↦ false ]

-- How the loop of `parse_comment` ends: with a comment, or at the end with the raw file name.
pub data Search : Type 0 where
  found : List ℕ → Search
  ended : List ℕ → Search
  crashed : Search

module _ (is_separator : ℕ → Bool) where
  -- The loop of `parse_str_nilterm` over what is left from the first character to change on.
  unfoldable pub escape : Bool → Bool → List ℕ → List ℕ
  unfolding hex_digit is_special
  escape nilterm ignore_sep [] = []
  escape nilterm ignore_sep (b ∷ bs) =
      let rest = escape nilterm ignore_sep bs in
      if b == 0 && nilterm
      then []
      else if is_special b
      then b'%' ∷ hex_digit (b / 16) ∷ hex_digit (b % 16) ∷ rest
      else if not ignore_sep && is_separator b
      then b'_' ∷ rest
      else b ∷ rest

  unfoldable pub parse_str_nilterm : List ℕ → Bool → Bool → List ℕ
  unfolding position escape
  parse_str_nilterm bytes nilterm ignore_sep =
      elim (position (λ c. is_special c || (not ignore_sep && is_separator c)) bytes) [
        | some index ↦ take index bytes ++ escape nilterm ignore_sep (drop index bytes)
        | none ↦ bytes
      ]

  -- `push` is `PathBuf::push`, or that of a string.
  module _ {P : Type 0} (push : P → List ℕ → P) where
    unfoldable pub push_parts : List (List ℕ) → P → P
    unfolding is_ignored parse_str_nilterm
    push_parts [] path = path
    push_parts (part ∷ parts) path =
        push_parts parts
          (if is_ignored part then path else push path (parse_str_nilterm part false false))

    -- `parse_pathname` and `parse_pathname_to_str` of src/header/parser.rs
    unfoldable pub push_pathname : List ℕ → P → P
    unfolding split is_path_separator push_parts
    push_pathname bytes path =
        let (part, parts) = split is_path_separator bytes in push_parts (part ∷ parts) path

    -- The loop over the extra headers: the file name and the path; `none` is a panic.
    pub name_headers : Bool → Iteration → List ℕ → P → Option (List ℕ × P)
    unfolding push_pathname parse_str_nilterm
    name_headers nilterm done filename path = some (filename, path)
    name_headers nilterm (item [] headers) filename path =
        name_headers nilterm headers filename path
    name_headers nilterm (item (id ∷ bytes) headers) filename path =
        if id == ext_header_filename
        then name_headers nilterm headers (parse_str_nilterm bytes nilterm false) path
        else if id == ext_header_path
        then name_headers nilterm headers filename (push_pathname bytes path)
        else name_headers nilterm headers filename path
    name_headers nilterm panicked filename path = none
    name_headers nilterm unfinished filename path = none

    -- `LhaHeader::parse_pathname` and `LhaHeader::parse_pathname_to_str`, from an empty path.
    unfoldable pub pathname : P → LhaHeader → Option P
    unfolding name_headers split_data_at_nil_or_end
    pathname empty h =
        let nilterm = is_amiga h in
        let bytes = if nilterm then (split_data_at_nil_or_end h.filename).0 else h.filename in
        elim (name_headers nilterm (extras h) [] empty) [
          | none ↦ none
          | some ([], path) ↦ some (push_pathname bytes path)
          | some (c ∷ cs, path) ↦ some (push path (c ∷ cs))
        ]

  -- The loop of `parse_comment`.
  pub comment_headers : Iteration → List ℕ → Search
  unfolding parse_str_nilterm
  comment_headers done raw_filename = ended raw_filename
  comment_headers (item [] headers) raw_filename = comment_headers headers raw_filename
  comment_headers (item (id ∷ bytes) headers) raw_filename =
      let others = comment_headers headers raw_filename in
      let renamed = comment_headers headers bytes in
      if id == ext_header_filename
      then renamed
      else if id == ext_header_comment
      then elim (parse_str_nilterm bytes false true) [ [] ↦ others | c ∷ cs ↦ found (c ∷ cs) ]
      else others
  comment_headers panicked raw_filename = crashed
  comment_headers unfinished raw_filename = crashed

  -- `LhaHeader::parse_comment`; the outer `none` is a panic.
  unfoldable pub parse_comment : LhaHeader → Option (Option (List ℕ))
  unfolding comment_headers split_data_at_nil_or_end is_amiga
  parse_comment h = elim (comment_headers (extras h) h.filename) [
    | found comment ↦ some (some comment)
    | ended raw_filename ↦
        if is_amiga h
        then elim (split_data_at_nil_or_end raw_filename).1 [
          | some bytes ↦ some (some (parse_str_nilterm bytes false true))
          | none ↦ some none
        ]
        else some none
    | crashed ↦ none
  ]

  -- `LhaHeader::parse_pathname_to_str`
  unfoldable pub parse_pathname_to_str : LhaHeader → Option (List ℕ)
  unfolding pathname push_str
  parse_pathname_to_str = pathname push_str []
