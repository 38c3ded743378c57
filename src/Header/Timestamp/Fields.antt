-- ===== src/Header/Timestamp/Fields.antt =====
-- src/header/timestamp.rs and src/header.rs: the fields of timestamps, and where a result comes from.
use rust_delharc.Prelude.{
  ℕ, ◌+◌, ◌-◌, ◌*◌, ◌/◌, ◌%◌, ◌^◌, ◌≤◌, ◌<◌, ◌≡◌, ◌≢◌, refl, ap, ap, inl, inr, true, false, ◌&&◌,
  Bool-cases, Option, none, some, List, u32, ◌<<<◌, ◌>>>◌, bit_and, [], ◌∷◌, length, take, drop,
  ltb, ltb-false, lt→ltb, leb, ◌==◌, arith,
}
use rust_delharc.Prelude.Bits.{bit_and_step, bit_and_mask}
use rust_delharc.Header.Types.{LhaHeader}
use rust_delharc.Header.Bytes.{read_u64, ext_header_unix_time, ext_header_msdos_time}
use rust_delharc.Header.Extras.{Iteration, done, item, panicked, unfinished, extras}
use rust_delharc.Header.Timestamp.{
  pos, LocalResult, no_time, single, Chrono, epoch, TimestampResult, is_naive, ambiguous,
  from_local_result, TimeSearch, found, absent, crashed, get_u32, time_header, time_headers,
  fallback, parse_last_modified, parse_msdos_datetime, parse_win_filetime, quotient, remainder,
}

-- The bits of a time of MS-DOS.
abbrev pub msdos_time : ℕ → ℕ → ℕ → ℕ → ℕ → ℕ → ℕ
msdos_time year mon day hour min sec =
    year * 2 ^ 25 + mon * 2 ^ 21 + day * 2 ^ 16 + hour * 2 ^ 11 + min * 2 ^ 5 + sec

module _ (ch : Chrono) where
  civil : ℕ → ℕ → ℕ → ℕ → ℕ → ℕ → Option ch.NaiveDateTime
  civil sec min hour day mon year = elim (ch.from_ymd_opt year mon day) [
    | some d ↦ ch.and_hms_opt d hour min sec
    | none ↦ none
  ]

  civil_cong :
      {s s' n n' h h' d d' m m' y y' : ℕ}
      → s ≡ s'
      → n ≡ n'
      → h ≡ h'
      → d ≡ d'
      → m ≡ m'
      → y ≡ y'
      → civil s n h d m y ≡ civil s' n' h' d' m' y'
  civil_cong e1 e2 e3 e4 e5 e6 = cc

  -- A time of MS-DOS with 7 bits for the years after 1980, 4 for the month, 5 for the day, 5 for
  -- the hour, 6 for the minute and 5 for half the second is read back as that date and time, if the
  -- calendar has it.
  pub parse_msdos_datetime-fields :
      (year mon day hour min sec : ℕ)
      → year < 128
      → mon < 16
      → day < 32
      → hour < 32
      → min < 64
      → sec < 32
      → parse_msdos_datetime ch (msdos_time year mon day hour min sec)
        ≡ elim (ch.from_ymd_opt (1980 + year) mon day) as (λ x. Option ch.NaiveDateTime) [
          | some d ↦ ch.and_hms_opt d hour min (2 * sec)
          | none ↦ none
        ]
  unfolding parse_msdos_datetime civil
  parse_msdos_datetime-fields year mon day hour min sec y m d h n s =
      let ts = msdos_time year mon day hour min sec in
      let e1 : bit_and (u32 (ts <<< 1)) 0x3e ≡ 2 * sec =
        omega (arith, bit_and_step (u32 (ts <<< 1)) 0x3e, bit_and_mask 5 (u32 (ts <<< 1) / 2)) in
      let e2 : bit_and (ts >>> 5) 0x3f ≡ min = omega (arith, bit_and_mask 6 (ts >>> 5)) in
      let e3 : bit_and (ts >>> 11) 0x1f ≡ hour = omega (arith, bit_and_mask 5 (ts >>> 11)) in
      let e4 : bit_and (ts >>> 16) 0x1f ≡ day = omega (arith, bit_and_mask 5 (ts >>> 16)) in
      let e5 : bit_and (ts >>> 21) 0xf ≡ mon = omega (arith, bit_and_mask 4 (ts >>> 21)) in
      let e6 : bit_and (ts >>> 25) 0x7f ≡ year = omega (arith, bit_and_mask 7 (ts >>> 25)) in
      civil_cong e1 e2 e3 e4 e5 (ap (λ (n : ℕ). 1980 + n) e6)

  -- A Windows time from 1970 on, below 2^63, becomes the number of seconds and of nanoseconds, less
  -- than a second, that have passed since 1970.
  pub parse_win_filetime-exact :
      (filetime : ℕ)
      → epoch ≤ filetime
      → filetime < 2 ^ 63
      → (secs : ℕ) × (nanos : ℕ) × (parse_win_filetime ch filetime
          ≡ some (ch.timestamp_opt (pos secs) nanos))
        × (nanos < 1000000000)
        × (secs * 1000000000 + nanos ≡ (filetime - epoch) * 100)
  unfolding parse_win_filetime quotient remainder
  parse_win_filetime-exact filetime h k =
      let fits : ltb filetime (2 ^ 63) ≡ true = lt→ltb _ _ k in
      let after : leb epoch filetime ≡ true = ground arith in
      let small : ltb ((filetime - epoch) % 10000000 * 100) (2 ^ 32) ≡ true =
        lt→ltb _ _ (omega arith) in
      (
        (filetime - epoch) / 10000000,
        (filetime - epoch) % 10000000 * 100,
        rw (fits, after, small) refl,
        omega arith,
        omega arith,
      )

  -- A Windows time before 1970 that is not on a whole second overflows the multiplication of
  -- `parse_win_filetime`, which panics with overflow checks.
  pub parse_win_filetime-overflow :
      (filetime : ℕ)
      → filetime < epoch
      → (epoch - filetime) % 10000000 ≢ 0
      → parse_win_filetime ch filetime ≡ none
  unfolding parse_win_filetime quotient remainder
  parse_win_filetime-overflow filetime h k =
      let fits : ltb filetime (2 ^ 63) ≡ true = lt→ltb _ _ (omega arith) in
      let before : leb epoch filetime ≡ false = ground arith in
      let part : ((epoch - filetime) % 10000000 == 0) ≡ false = ground arith in
      let large : ltb ((2 ^ 32 - (epoch - filetime) % 10000000) * 100) (2 ^ 32) ≡ false =
        ltb-false _ _ (omega arith) in
      rw (fits, before, part, large) refl

  from_local_result-aware :
      (t : LocalResult ch.UtcTime) → is_naive ch (from_local_result ch t) ≡ false
  unfolding is_naive from_local_result
  from_local_result-aware no_time = refl
  from_local_result-aware (single t) = refl
  from_local_result-aware (ambiguous t u) = refl

  -- What is found in an extra header has a time zone.
  abbrev IsAware : TimeSearch ch → Type 0
  IsAware (found t) = is_naive ch t ≡ false
  IsAware absent = Unit
  IsAware crashed = Unit

  time_header-IsAware : (id : ℕ) (bytes : List ℕ) → IsAware (time_header ch id bytes)
  unfolding time_header
  time_header-IsAware id bytes = elim (Bool-cases (id == ext_header_unix_time)) [
    | inl e ↦ rw e (by_unix (get_u32 ch 0 bytes))
    | inr e ↦ elim (Bool-cases (id == ext_header_msdos_time && length bytes == 24)) [
      | inl f ↦ rw (e, f) (by_msdos (read_u64 (take 8 (drop 8 bytes))))
      | inr f ↦ rw (e, f) tt
    ]
  ]
    where
      by_unix :
          (o : Option ℕ)
          → IsAware (elim o as (λ x. TimeSearch ch) [
            | some ts ↦ found (from_local_result ch (ch.timestamp_opt (pos ts) 0))
            | none ↦ absent
          ])
      by_unix none = tt
      by_unix (some ts) = from_local_result-aware (ch.timestamp_opt (pos ts) 0)

      by_time :
          (o : Option (LocalResult ch.UtcTime))
          → IsAware (elim o as (λ x. TimeSearch ch) [
            | some t ↦ found (from_local_result ch t)
            | none ↦ crashed
          ])
      by_time none = tt
      by_time (some t) = from_local_result-aware t

      by_msdos :
          (o : Option ℕ)
          → IsAware (elim o as (λ x. TimeSearch ch) [
            | some mtime ↦ elim (parse_win_filetime ch mtime) as (λ x. TimeSearch ch) [
              | some t ↦ found (from_local_result ch t)
              | none ↦ crashed
            ]
            | none ↦ absent
          ])
      by_msdos none = tt
      by_msdos (some mtime) = by_time (parse_win_filetime ch mtime)

  time_headers-IsAware : (headers : Iteration) → IsAware (time_headers ch headers)
  unfolding time_headers
  time_headers-IsAware done = tt
  time_headers-IsAware (item [] headers) = time_headers-IsAware headers
  time_headers-IsAware (item (id ∷ bytes) headers) =
      by_header (time_header ch id bytes) (time_header-IsAware id bytes)
        (time_headers-IsAware headers)
    where
      by_header :
          (o : TimeSearch ch)
          → IsAware o
          → IsAware (time_headers ch headers)
          → IsAware (elim o as (λ x. TimeSearch ch) [
            | found t ↦ found t
            | absent ↦ time_headers ch headers
            | crashed ↦ crashed
          ])
      by_header (found t) h k = h
      by_header absent h k = k
      by_header crashed h k = tt
  time_headers-IsAware panicked = tt
  time_headers-IsAware unfinished = tt

  fallback-aware : (h : LhaHeader) → 2 ≤ h.level → is_naive ch (fallback ch h) ≡ false
  unfolding fallback
  fallback-aware h l =
      let high : ltb h.level 2 ≡ false = ltb-false _ _ l in
      rw high (from_local_result-aware (ch.timestamp_opt (pos h.last_modified) 0))

  -- From level 2 on, a time of modification that `parse_last_modified` returns is never one without
  -- a time zone.
  pub parse_last_modified-aware :
      (h : LhaHeader) (t : TimestampResult ch)
      → 2 ≤ h.level
      → parse_last_modified ch h ≡ some t
      → is_naive ch t ≡ false
  unfolding parse_last_modified
  parse_last_modified-aware h t l =
      by_search (time_headers ch (extras h)) (time_headers-IsAware (extras h))
    where
      by_search :
          (o : TimeSearch ch)
          → IsAware o
          → (elim o as (λ x. Option (TimestampResult ch)) [
            | found t ↦ some t
            | absent ↦ some (fallback ch h)
            | crashed ↦ none
          ])
            ≡ some t
          → is_naive ch t ≡ false
      by_search (found r) a e = cc
      by_search crashed a e = cc e
      by_search absent a e = let b = fallback-aware h l in cc
