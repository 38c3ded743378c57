-- ===== src/Header/Parser/Extra.antt =====
-- src/header/parser.rs: the loop of `LhaHeader::read` over the extra headers, and the iterator
-- `ExtraHeaderIter` over them.
use rust_delharc.Prelude.{
  ℕ, zero, suc, ◌+◌, ◌-◌, ◌&&◌, ◌||◌, not, Bool, true, false, Option, none, some, List, [], ◌∷◌,
  ◌++◌, length, take, drop, ltb, leb, ◌==◌, if◌then◌else◌,
}
use rust_delharc.Outcome.{ok, err, out_of_fuel, Prog, ◌>>=◌, ◌>>◌, ret, fail, fail_if, modify}
use rust_delharc.Error.{LhaError, header_parse}
use rust_delharc.StubIo.{Read}
use rust_delharc.Header.Types.{LhaHeader}
use rust_delharc.Header.Bytes.{
  from_le_bytes, ext_header_common, ext_header_msdos_attrs, ext_header_msdos_size,
  ext_header_ext_attrs,
}
use rust_delharc.Header.Parser.Reader.{
  Parser, read_limit_no_checksums, update_checksums_no_wrapping_sum,
}
use rust_delharc.Header.Parser.Base.{Prefix}

-- The variables that the loop changes.
pub record Collected : Type 0 where
  pub extra_headers : List ℕ
  pub header_crc : Option ℕ
  pub msdos_attrs : ℕ
  pub original_size : ℕ
  pub compressed_size : ℕ

abbrev pub none_collected : Prefix → Collected
none_collected x = record {
  extra_headers = [];
  header_crc = none;
  msdos_attrs = x.msdos_attrs;
  original_size = x.original_size;
  compressed_size = x.compressed_size;
}

-- What the `match` on a header says of it: the header as it is kept, whose CRC-16 field is zero,
-- and the variables after it. `none` is the error of a second common header.
abbrev pub zero_crc : List ℕ → List ℕ
zero_crc (lo ∷ hi ∷ rest) = 0 ∷ 0 ∷ rest
zero_crc rest = rest

abbrev pub crc_field : List ℕ → Option ℕ
crc_field (lo ∷ hi ∷ rest) = some (from_le_bytes (lo ∷ hi ∷ []))
crc_field _ = none

unfoldable pub examine : ℕ → List ℕ → Collected → Option (List ℕ × Collected)
examine level [] c = some ([], c)
examine level (id ∷ body) c =
    if id == ext_header_common
    then elim c.header_crc [
      | some _ ↦ none
      | none ↦ some (id ∷ zero_crc body, record c { header_crc = crc_field body })
    ]
    else if (id == ext_header_msdos_attrs || id == ext_header_ext_attrs) && leb 2 (length body)
    then some (id ∷ body, record c { msdos_attrs = from_le_bytes (take 2 body) })
    else if id == ext_header_msdos_size && leb 2 level && leb 16 (length body)
    then some (
      id ∷ body,
      record c {
        original_size = from_le_bytes (take 8 (drop 8 body));
        compressed_size = from_le_bytes (take 8 body);
      },
    )
    else some (id ∷ body, c)

-- The size of the length field at the end of a header.
abbrev pub counter_size : ℕ → ℕ
counter_size level = if level == 3 then 4 else 2

-- The length of the next header.
abbrev pub next_len : ℕ → List ℕ → ℕ
next_len level header = from_le_bytes (drop (length header - counter_size level) header)

abbrev pub min_header_len : ℕ → ℕ
min_header_len level = if level == 3 then 5 else 3

module _ (rd : Read) (x : Prefix) where
  -- The checks before a header of the given length is read.
  unfoldable pub check_extra : ℕ → Collected → Prog (LhaError rd.Error) (Parser rd) (Unit {0})
  check_extra extra_header_len c p =
      if ltb extra_header_len (min_header_len x.level)
      then err (header_parse "wrong extra header size") p
      else if not (x.long_header_len == 0)
      then fail_if (ltb x.long_header_len (p.len + extra_header_len - 2))
          (header_parse "wrong header size") p
      else fail_if (ltb c.compressed_size (length c.extra_headers + extra_header_len))
          (header_parse "wrong header size") p

  -- The body of the loop: the length of the next header, and the variables after this one.
  unfoldable pub read_one : ℕ → Collected → Prog (LhaError rd.Error) (Parser rd) (ℕ × Collected)
  unfolding check_extra examine
  read_one extra_header_len c = do
    check_extra extra_header_len c
    header ← read_limit_no_checksums rd extra_header_len
    elim (examine x.level header c) [
      | none ↦ fail (header_parse "double common CRC-16 header")
      | some (kept, c') ↦ do
        modify (update_checksums_no_wrapping_sum rd kept)
        ret (next_len x.level kept, record c' { extra_headers = c.extra_headers ++ kept })
    ]

  unfoldable pub extra_loop : ℕ → ℕ → Collected → Prog (LhaError rd.Error) (Parser rd) Collected
  unfolding read_one
  extra_loop zero extra_header_len c p = if extra_header_len == 0 then ok c p else out_of_fuel
  extra_loop (suc fuel) extra_header_len c p = elim (extra_header_len == 0) [
    | true ↦ ok c p
    | false ↦ (read_one extra_header_len c >>= λ next. extra_loop fuel next.0 next.1) p
  ]

  -- Each round reads three bytes or more, and the checks bound what is read in all.
  unfoldable pub read_extra : Prog (LhaError rd.Error) (Parser rd) Collected
  unfolding extra_loop
  read_extra =
      extra_loop (x.long_header_len + x.compressed_size + 1) x.first_header_len (none_collected x)

-- `struct ExtraHeaderIter`
pub record ExtraHeaderIter : Type 0 where
  pub bytes : List ℕ
  pub header_length : ℕ
  pub header_len32 : Bool

unfoldable pub iter_extra : LhaHeader → ExtraHeaderIter
iter_extra h = record {
  bytes = h.extra_headers;
  header_length = h.first_header_len;
  header_len32 = h.level == 3;
}

-- How `next` ends: at the end of the headers, with one of them, or in a panic of `split_at`.
pub data Yield : Type 0 where
  finished : Yield
  header : List ℕ → ExtraHeaderIter → Yield
  split_panic : Yield

-- `ExtraHeaderIter::next`
unfoldable pub next : ExtraHeaderIter → Yield
next it =
    let header_length = it.header_length in
    let counter = if it.header_len32 then 4 else 2 in
    let whole = take header_length it.bytes in
    let res = take (header_length - counter) whole in
    let len = drop (header_length - counter) whole in
    if header_length == 0
    then finished
    else if ltb (length it.bytes) header_length || ltb header_length counter
    then split_panic
    else header res
        (record it { header_length = from_le_bytes len; bytes = drop header_length it.bytes })
