-- ===== src/Header/Parser/Reads.antt =====
-- src/header/parser.rs: what the reads of the parser leave, and the base header, over any reader that
-- keeps its promises.
use rust_delharc.Prelude.{ℕ, ◌+◌, ◌≤◌, ◌≡◌, refl, length, arith}
use rust_delharc.Outcome.{Ends}
use rust_delharc.Outcome.Rules.{Post-within, Post-map_err, Ends-bind, Post-Ends}
use rust_delharc.Error.{map_io, io}
use rust_delharc.StubIo.{Read}
use rust_delharc.StubIo.Laws.{IsReader, AreBytes}
use rust_delharc.Header.Parser.Reader.{
  Parser, on_reader, update_checksums, update_checksums_no_wrapping_sum, read_exact, read_u8,
  read_u16, read_u32, read_limit, read_limit_no_checksums,
}

module _ (rd : Read) (laws : IsReader rd) where
  -- The reader is in a valid state.
  abbrev pub Live : Parser rd → Type 0
  Live p = laws.Valid p.reader

  -- `n` bytes more have been read.
  abbrev pub Ahead : Parser rd → ℕ → Parser rd → Type 0
  Ahead p n t = Live t × (t.len ≡ p.len + n)

  pub unsummed_read :
      (n : ℕ) (p : Parser rd)
      → Live p
      → Ends
          (λ bytes t. (length bytes ≡ n) × AreBytes bytes × Live t × (t.len ≡ p.len))
          Live
          (read_limit_no_checksums rd n p)
  unfolding read_limit_no_checksums
  unsummed_read n p v =
      Post-Ends (λ bytes t. (length bytes ≡ n) × AreBytes bytes × Live t × (t.len ≡ p.len)) Live
        (on_reader rd (rd.read_exact n) p)
        (Post-within
          (λ bytes r.
            (length bytes ≡ n)
            × AreBytes bytes
            × laws.Valid r
            × (laws.left r + length bytes ≤ laws.left p.reader))
          (λ bytes t. (length bytes ≡ n) × AreBytes bytes × Live t × (t.len ≡ p.len))
          (λ r. laws.Valid r × (laws.left r ≤ laws.left p.reader)) Live
          (λ (x : Parser rd). x.reader) (λ (x : Parser rd) (r : rd.Reader). record x { reader = r })
          (map_io (rd.read_exact n)) p
          (Post-map_err _ _ io (rd.read_exact n) p.reader (laws.read_exact-Post n p.reader v))
          (λ r (h, m). h) (λ bytes r (size, are, h, m). (size, are, h, refl)))

  pub exact_read :
      (n : ℕ) (p : Parser rd) → Live p → Ends (λ bytes t. Ahead p n t) Live (read_exact rd n p)
  unfolding read_exact read_limit_no_checksums update_checksums update_checksums_no_wrapping_sum
  exact_read n p v =
      Ends-bind (λ bytes t. (length bytes ≡ n) × AreBytes bytes × Live t × (t.len ≡ p.len))
        (λ bytes t. Ahead p n t) Live (on_reader rd (rd.read_exact n)) _ p (unsummed_read n p v)
        (λ bytes t (size, are, h, e). (h, omega arith))

  pub limit_read :
      (n : ℕ) (p : Parser rd) → Live p → Ends (λ bytes t. Ahead p n t) Live (read_limit rd n p)
  unfolding read_limit update_checksums update_checksums_no_wrapping_sum
  limit_read n p v =
      Ends-bind (λ bytes t. (length bytes ≡ n) × AreBytes bytes × Live t × (t.len ≡ p.len))
        (λ bytes t. Ahead p n t) Live (read_limit_no_checksums rd n) _ p (unsummed_read n p v)
        (λ bytes t (size, are, h, e). (h, omega arith))

  pub u8_read : (p : Parser rd) → Live p → Ends (λ b t. Ahead p 1 t) Live (read_u8 rd p)
  unfolding read_u8
  u8_read p v =
      Ends-bind (λ bytes t. Ahead p 1 t) (λ b t. Ahead p 1 t) Live (read_exact rd 1) _ p
        (exact_read 1 p v) (λ bytes t h. h)

  pub u16_read : (p : Parser rd) → Live p → Ends (λ b t. Ahead p 2 t) Live (read_u16 rd p)
  unfolding read_u16
  u16_read p v =
      Ends-bind (λ bytes t. Ahead p 2 t) (λ b t. Ahead p 2 t) Live (read_exact rd 2) _ p
        (exact_read 2 p v) (λ bytes t h. h)

  pub u32_read : (p : Parser rd) → Live p → Ends (λ b t. Ahead p 4 t) Live (read_u32 rd p)
  unfolding read_u32
  u32_read p v =
      Ends-bind (λ bytes t. Ahead p 4 t) (λ b t. Ahead p 4 t) Live (read_exact rd 4) _ p
        (exact_read 4 p v) (λ bytes t h. h)
