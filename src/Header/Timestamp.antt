-- ===== src/Header/Timestamp.antt =====
-- src/header/timestamp.rs and src/header.rs: timestamps. The types and functions of the chrono
-- library are a parameter.
pub mod Fields
use rust_delharc.Prelude.{
  ℕ, zero, suc, ◌+◌, ◌-◌, ◌*◌, ◌/◌, ◌%◌, ◌^◌, Bool, true, false, ◌&&◌, Option, none, some, List, [],
  ◌∷◌, length, take, drop, u32, ◌<<<◌, ◌>>>◌, bit_and, ltb, leb, ◌==◌, if◌then◌else◌,
}
use rust_delharc.Header.Types.{LhaHeader}
use rust_delharc.Header.Bytes.{read_u32, read_u64, ext_header_unix_time, ext_header_msdos_time}
use rust_delharc.Header.OsTypes.{OsType, unix, osk}
use rust_delharc.Header.Extras.{Iteration, done, item, panicked, unfinished, extras}
use rust_delharc.Header.Names.{parse_os_type}

-- A signed number of seconds.
pub data ℤ : Type 0 where
  pos : ℕ → ℤ
  negsuc : ℕ → ℤ

-- `chrono::LocalResult`
pub data LocalResult (A : Type 0) : Type 0 where
  no_time : LocalResult A
  single : A → LocalResult A
  ambiguous : A → A → LocalResult A

-- What is used of chrono; `UtcTime` is `DateTime<Utc>` and `LocalTime` is `DateTime<Local>`.
pub record Chrono : Type 1 where
  pub NaiveDate : Type 0
  pub NaiveDateTime : Type 0
  pub UtcTime : Type 0
  pub LocalTime : Type 0
  pub from_ymd_opt : ℕ → ℕ → ℕ → Option NaiveDate
  pub and_hms_opt : NaiveDate → ℕ → ℕ → ℕ → Option NaiveDateTime
  pub timestamp_opt : ℤ → ℕ → LocalResult UtcTime
  pub naive_utc : UtcTime → NaiveDateTime
  pub naive_local : UtcTime → NaiveDateTime
  pub from_naive_utc : NaiveDateTime → UtcTime
  pub from_local_datetime : NaiveDateTime → LocalResult LocalTime
  pub with_local_timezone : UtcTime → LocalTime

-- 100 nanoseconds from the start of 1601 to that of 1970.
abbrev pub epoch : ℕ
epoch = 116444736000000000

module _ (ch : Chrono) where
  pub data TimestampResult : Type 0 where
    unknown : TimestampResult
    naive : ch.NaiveDateTime → TimestampResult
    utc : ch.UtcTime → TimestampResult

  unfoldable pub is_none : TimestampResult → Bool
  is_none unknown = true
  is_none _ = false

  unfoldable pub is_naive : TimestampResult → Bool
  is_naive (naive t) = true
  is_naive _ = false

  unfoldable pub is_utc : TimestampResult → Bool
  is_utc (utc t) = true
  is_utc _ = false

  unfoldable pub to_naive_utc : TimestampResult → Option ch.NaiveDateTime
  to_naive_utc (naive t) = some t
  to_naive_utc (utc t) = some (ch.naive_utc t)
  to_naive_utc unknown = none

  unfoldable pub to_naive_local : TimestampResult → Option ch.NaiveDateTime
  to_naive_local (naive t) = some t
  to_naive_local (utc t) = some (ch.naive_local t)
  to_naive_local unknown = none

  unfoldable pub to_utc : TimestampResult → Option ch.UtcTime
  to_utc (naive t) = some (ch.from_naive_utc t)
  to_utc (utc t) = some t
  to_utc unknown = none

  unfoldable pub to_local : TimestampResult → Option ch.LocalTime
  to_local (naive t) = elim (ch.from_local_datetime t) [ single l ↦ some l | _ ↦ none ]
  to_local (utc t) = some (ch.with_local_timezone t)
  to_local unknown = none

  -- `impl From<Option<NaiveDateTime>>`
  unfoldable pub from_option : Option ch.NaiveDateTime → TimestampResult
  from_option (some t) = naive t
  from_option none = unknown

  -- `impl From<LocalResult<DateTime<T>>>`
  unfoldable pub from_local_result : LocalResult ch.UtcTime → TimestampResult
  from_local_result (single t) = utc t
  from_local_result no_time = unknown
  from_local_result (ambiguous t u) = unknown

  unfoldable pub parse_msdos_datetime : ℕ → Option ch.NaiveDateTime
  parse_msdos_datetime ts =
      let sec = bit_and (u32 (ts <<< 1)) 0x3e in
      let min = bit_and (ts >>> 5) 0x3f in
      let hour = bit_and (ts >>> 11) 0x1f in
      let day = bit_and (ts >>> 16) 0x1f in
      let mon = bit_and (ts >>> 21) 0xf in
      let year = 1980 + bit_and (ts >>> 25) 0x7f in
      elim (ch.from_ymd_opt year mon day) [ some d ↦ ch.and_hms_opt d hour min sec | none ↦ none ]

  -- `ft / 10_000_000`, and `ft % 10_000_000` as `u32`, where `ft` is `filetime - epoch`: division
  -- rounds towards 0, and a negative remainder wraps around.
  unfoldable pub quotient : ℕ → ℤ
  quotient filetime =
      let after = (filetime - epoch) / 10000000 in
      let before = (epoch - filetime) / 10000000 in
      if leb epoch filetime then pos after else if before == 0 then pos 0 else negsuc (before - 1)

  unfoldable pub remainder : ℕ → ℕ
  remainder filetime =
      let before = (epoch - filetime) % 10000000 in
      if leb epoch filetime
      then (filetime - epoch) % 10000000
      else if before == 0
      then 0
      else 2 ^ 32 - before

  -- `none` is a panic of the multiplication, which is one of `u32`.
  unfoldable pub parse_win_filetime : ℕ → Option (LocalResult ch.UtcTime)
  unfolding quotient remainder
  parse_win_filetime filetime =
      if ltb filetime (2 ^ 63)
      then (if ltb (remainder filetime * 100) (2 ^ 32)
          then some (ch.timestamp_opt (quotient filetime) (remainder filetime * 100))
          else none)
      else some no_time

  -- How the loop of `parse_last_modified` ends: with a result, or at the end of the headers.
  pub data TimeSearch : Type 0 where
    found : TimestampResult → TimeSearch
    absent : TimeSearch
    crashed : TimeSearch

  -- `data.get(from..to).and_then(read_u32)`
  unfoldable pub get_u32 : ℕ → List ℕ → Option ℕ
  get_u32 from bytes =
      if ltb (length bytes) (from + 4) then none else read_u32 (take 4 (drop from bytes))

  -- The first two arms of the `match`.
  unfoldable pub time_header : ℕ → List ℕ → TimeSearch
  unfolding get_u32 from_local_result parse_win_filetime
  time_header id bytes =
      if id == ext_header_unix_time
      then elim (get_u32 0 bytes) [
        | some ts ↦ found (from_local_result (ch.timestamp_opt (pos ts) 0))
        | none ↦ absent
      ]
      else if id == ext_header_msdos_time && length bytes == 24
      then elim (read_u64 (take 8 (drop 8 bytes))) [
        | some mtime ↦ elim (parse_win_filetime mtime) [
          | some t ↦ found (from_local_result t)
          | none ↦ crashed
        ]
        | none ↦ absent
      ]
      else absent

  unfoldable pub time_headers : Iteration → TimeSearch
  unfolding time_header
  time_headers done = absent
  time_headers (item [] headers) = time_headers headers
  time_headers (item (id ∷ bytes) headers) =
      let others = time_headers headers in
      elim (time_header id bytes) [ found t ↦ found t | absent ↦ others | crashed ↦ crashed ]
  time_headers panicked = crashed
  time_headers unfinished = crashed

  -- What `parse_last_modified` returns after the loop.
  unfoldable pub fallback : LhaHeader → TimestampResult
  unfolding get_u32 from_local_result from_option parse_msdos_datetime
  fallback h =
      let msdos = from_option (parse_msdos_datetime h.last_modified) in
      let area = elim (get_u32 1 h.extended_area) as (λ x. TimestampResult) [
        | some ts ↦ from_local_result (ch.timestamp_opt (pos ts) 0)
        | none ↦ msdos
      ] in
      let low = elim (parse_os_type h) as (λ x. TimestampResult) [
        | some unix ↦ area
        | some osk ↦ area
        | _ ↦ msdos
      ] in
      if ltb h.level 2 then low else from_local_result (ch.timestamp_opt (pos h.last_modified) 0)

  -- `LhaHeader::parse_last_modified`; `none` is a panic.
  unfoldable pub parse_last_modified : LhaHeader → Option TimestampResult
  unfolding time_headers fallback
  parse_last_modified h = elim (time_headers (extras h)) [
    | found t ↦ some t
    | absent ↦ some (fallback h)
    | crashed ↦ none
  ]
