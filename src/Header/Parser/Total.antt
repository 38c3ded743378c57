-- ===== src/Header/Parser/Total.antt =====
-- src/header/parser.rs: `LhaHeader::read` over any reader that keeps its promises.
use rust_delharc.Prelude.{
  ℕ, ◌+◌, ◌≤◌, ◌<◌, ◌≡◌, inl, inr, refl, Bool, true, false, not, ◌&&◌, Bool-cases, Option, none,
  some, List, length, u32, ltb, ◌==◌, ==_zero-false, arith,
}
use rust_delharc.Outcome.{Outcome, ok, err, panic, out_of_fuel, Ends, ◌>>=◌, ret, fail_if}
use rust_delharc.Outcome.Rules.{Post-within, Post-map_err, Post-Ends, Ends-bind, Ends-if}
use rust_delharc.Error.{LhaError, header_parse, map_io, io}
use rust_delharc.StubIo.{Read}
use rust_delharc.StubIo.Laws.{IsReader, AreBytes}
use rust_delharc.Crc
use rust_delharc.Header.Types.{LhaHeader}
use rust_delharc.Header.Parser.{
  check_long_header_len, check_header_crc, skip_size, read_header, read_or_end, read,
}
use rust_delharc.Header.Parser.Reader
use rust_delharc.Header.Parser.Reader.{
  Parser, start, on_reader, read_u8, update_checksums_no_wrapping_sum,
}
use rust_delharc.Header.Parser.Base.{Prefix, read_prefix}
use rust_delharc.Header.Parser.Extra.{Collected, read_extra}
use rust_delharc.Header.Parser.Reads.{Live, Ahead, u8_read}
use rust_delharc.Header.Parser.Prefixes.{IsPrefix, prefix_read}
use rust_delharc.Header.Parser.Examined.{Chain}
use rust_delharc.Header.Parser.Headers.{extra_read}

-- The extra headers of a header are headers one after the other, up to their end.
abbrev pub HasExtras : LhaHeader → Type 0
HasExtras h = (hs : List (List ℕ)) × Chain h.level hs h.first_header_len h.extra_headers

abbrev pub HasExtrasIfAny : Option LhaHeader → Type 0
HasExtrasIfAny none = Unit
HasExtrasIfAny (some h) = HasExtras h

module _ (rd : Read) (laws : IsReader rd) where
  long_checked :
      (x : Prefix) (p : Parser rd)
      → Live rd laws p
      → Ends (λ u t. Live rd laws t) (Live rd laws) (check_long_header_len rd x p)
  unfolding check_long_header_len
  long_checked x p v =
      elim (Bool-cases (not (x.long_header_len == 0) && not (x.long_header_len == u32 p.len))) [
        | inl e ↦ elim (Bool-cases (x.level == 2 && x.long_header_len == u32 p.len + 1)) [
          | inl f ↦
              rw (e, f)
                (Ends-bind (λ b t. Ahead rd laws p 1 t) (λ u t. Live rd laws t) (Live rd laws)
                  (read_u8 rd) _ p (u8_read rd laws p v) (λ b t h. h.0))
          | inr f ↦ rw (e, f) (tested (x.level == 2 && not (x.long_header_len + 2 == u32 p.len)))
        ]
        | inr e ↦ rw e v
      ]
    where
      tested :
          (c : Bool)
          → Ends {E = LhaError rd.Error}
              (λ u t. Live rd laws t)
              (Live rd laws)
              (fail_if c (header_parse "wrong length of headers") p)
      tested true = v
      tested false = v

  crc_checked :
      (o : Option ℕ) (p : Parser rd)
      → Live rd laws p
      → Ends (λ u t. Live rd laws t) (Live rd laws) (check_header_crc rd o p)
  unfolding check_header_crc
  crc_checked none p v = v
  crc_checked (some crc) p v = elim (Bool-cases (not (crc == Crc.sum16 p.crc))) [
    | inl e ↦ rw e v
    | inr e ↦ rw e v
  ]

  size_skipped :
      (x : Prefix) (c : Collected) (p : Parser rd)
      → Live rd laws p
      → Ends (λ u t. Live rd laws t) (Live rd laws) (skip_size rd x c p)
  unfolding skip_size
  size_skipped x c p v = elim (Bool-cases (x.level == 1)) [
    | inl e ↦ elim (Bool-cases (ltb c.compressed_size (length c.extra_headers))) [
      | inl f ↦ rw (e, f) v
      | inr f ↦ rw (e, f) v
    ]
    | inr e ↦ rw e v
  ]

  header_read :
      (header_len : ℕ) (p : Parser rd)
      → Live rd laws p
      → p.len ≡ 1
      → 0 < header_len
      → Ends (λ h t. Live rd laws t × HasExtras h) (Live rd laws) (read_header rd header_len p)
  unfolding read_header
  header_read header_len p v e pos =
      Ends-bind (IsPrefix rd laws) (λ h t. Live rd laws t × HasExtras h) (Live rd laws)
        (read_prefix rd header_len) _ p (prefix_read rd laws header_len p v e pos)
        (λ x t (h, short).
          Ends-bind
            (λ c u.
              Live rd laws u
              × ((hs : List (List ℕ)) × Chain x.level hs x.first_header_len c.extra_headers))
            (λ h t. Live rd laws t × HasExtras h) (Live rd laws) (read_extra rd x) _ t
            (extra_read rd laws x short t h)
            (λ c t1 (h1, chain).
              Ends-bind (λ u t. Live rd laws t) (λ h t. Live rd laws t × HasExtras h) (Live rd laws)
                (check_long_header_len rd x) _ t1 (long_checked x t1 h1)
                (λ u t2 h2.
                  Ends-bind (λ u t. Live rd laws t) (λ h t. Live rd laws t × HasExtras h)
                    (Live rd laws) (check_header_crc rd c.header_crc) _ t2
                    (crc_checked c.header_crc t2 h2)
                    (λ u t3 h3.
                      Ends-bind (λ u t. Live rd laws t) (λ h t. Live rd laws t × HasExtras h)
                        (Live rd laws) (skip_size rd x c) _ t3 (size_skipped x c t3 h3)
                        (λ size t4 h4. (h4, chain))))))

  -- The first byte, or the end of the data.
  first_read :
      (p : Parser rd)
      → Live rd laws p
      → Ends
          (λ o t. Live rd laws t × ((b : ℕ) → o ≡ some b → t.len ≡ p.len + 1))
          (Live rd laws)
          (Reader.read_u8_or_none rd p)
  unfolding Reader.read_u8_or_none update_checksums_no_wrapping_sum
  first_read p v =
      Ends-bind (λ bytes t. (length bytes ≤ 1) × Live rd laws t × (t.len ≡ p.len))
        (λ o t. Live rd laws t × ((b : ℕ) → o ≡ some b → t.len ≡ p.len + 1)) (Live rd laws)
        (on_reader rd (rd.read_all 1)) _ p
        (Post-Ends (λ bytes t. (length bytes ≤ 1) × Live rd laws t × (t.len ≡ p.len)) (Live rd laws)
          (on_reader rd (rd.read_all 1) p)
          (Post-within
            (λ bytes r.
              (length bytes ≤ 1)
              × AreBytes bytes
              × laws.Valid r
              × (laws.left r + length bytes ≤ laws.left p.reader))
            (λ bytes t. (length bytes ≤ 1) × Live rd laws t × (t.len ≡ p.len))
            (λ r. laws.Valid r × (laws.left r ≤ laws.left p.reader)) (Live rd laws)
            (λ (x : Parser rd). x.reader)
            (λ (x : Parser rd) (r : rd.Reader). record x { reader = r }) (map_io (rd.read_all 1)) p
            (Post-map_err _ _ io (rd.read_all 1) p.reader (laws.read_all-Post 1 p.reader v))
            (λ r (h, m). h) (λ bytes r (size, are, h, m). (size, h, refl))))
        (λ bytes t (size, h, e).
          Ends-if (λ o t. Live rd laws t × ((b : ℕ) → o ≡ some b → t.len ≡ p.len + 1))
            (Live rd laws) (length bytes == 0) (ret none) _ t (λ z. (h, λ b f. cc f))
            (λ z. let pos = ==_zero-false _ z in (h, λ b f. omega arith)))

  -- Over a reader in a valid state that keeps its documented behaviour, `LhaHeader::read` ends, by
  -- returning or in a panic: the loop over the extra headers never uses up its fuel. If it returns,
  -- with a header or an error, then the reader is in a valid state, and the extra headers of a
  -- header stand one after the other: the first has the given length, each ends with the length of
  -- the next and has the least length of its level, and the last ends with 0.
  pub read-Ends :
      (r : rd.Reader)
      → laws.Valid r
      → Ends (λ h r'. laws.Valid r' × HasExtrasIfAny h) laws.Valid (read rd r)
  unfolding read read_or_end
  read-Ends r v = by_outcome ((Reader.read_u8_or_none rd >>= read_or_end rd) (start r)) (
      Ends-bind (λ o t. Live rd laws t × ((b : ℕ) → o ≡ some b → t.len ≡ 0 + 1))
        (λ h t. Live rd laws t × HasExtrasIfAny h) (Live rd laws) (Reader.read_u8_or_none rd)
        (read_or_end rd) (start r) (first_read (start r) v) (λ o t (h, e). by_first o t h e))
    where
      by_first :
          (o : Option ℕ) (t : Parser rd)
          → Live rd laws t
          → ((b : ℕ) → o ≡ some b → t.len ≡ 0 + 1)
          → Ends (λ h t. Live rd laws t × HasExtrasIfAny h) (Live rd laws) (read_or_end rd o t)
      by_first none t h e = (h, tt)
      by_first (some header_len) t h e = elim (Bool-cases (header_len == 0)) [
        | inl z ↦ rw (z, Ends) (h, tt)
        | inr z ↦
            let one = e header_len refl in
            rw (z, Ends)
              (Ends-bind (λ h t. Live rd laws t × HasExtras h)
                (λ h t. Live rd laws t × HasExtrasIfAny h) (Live rd laws)
                (read_header rd header_len) (λ h. ret (some h)) t
                (header_read header_len t h (omega arith) (==_zero-false header_len z))
                (λ h u k. k))
      ]

      by_outcome :
          (o : Outcome (LhaError rd.Error) (Parser rd) (Option LhaHeader))
          → Ends (λ h t. Live rd laws t × HasExtrasIfAny h) (Live rd laws) o
          → Ends
              (λ h r'. laws.Valid r' × HasExtrasIfAny h)
              laws.Valid
              (elim o as (λ x. Outcome (LhaError rd.Error) rd.Reader (Option LhaHeader)) [
                | ok h p ↦ ok h p.reader
                | err e p ↦ err e p.reader
                | panic ↦ panic
                | out_of_fuel ↦ out_of_fuel
              ])
      by_outcome (ok h t) k = k
      by_outcome (err e t) k = k
      by_outcome panic k = k
      by_outcome out_of_fuel k = k
