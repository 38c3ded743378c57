-- ===== src/Header/Parser/Headers.antt =====
-- src/header/parser.rs: the extra headers that the parser collects, over any reader that keeps its
-- promises.
use rust_delharc.Prelude.{
  ℕ, zero, suc, ◌+◌, ◌-◌, ◌*◌, ◌≤◌, ◌<◌, ◌≡◌, ◌⊎◌, inl, inr, refl, ap, sym, ◌∙◌, Bool-cases, Option,
  none, some, List, [], ◌∷◌, ◌++◌, length, length-append, ltb, ltb-false→≤, ◌==◌, ==_iff,
  if◌then◌else◌, arith,
}
use mathlib.Core.Path.{subst}
use rust_delharc.Prelude.{append_nil, append_assoc}
use rust_delharc.Outcome.{Prog, Ends, ◌>>◌, ret, modify, fail}
use rust_delharc.Outcome.Rules.{Ends-bind, Ends-mono}
use rust_delharc.Error.{LhaError, header_parse}
use rust_delharc.StubIo.{Read}
use rust_delharc.StubIo.Laws.{IsReader, AreBytes}
use rust_delharc.Header.Parser.Reader.{
  Parser, read_limit_no_checksums, update_checksums_no_wrapping_sum,
}
use rust_delharc.Header.Parser.Base.{Prefix}
use rust_delharc.Header.Parser.Extra.{
  Collected, none_collected, examine, next_len, min_header_len, check_extra, read_one, extra_loop,
  read_extra,
}
use rust_delharc.Header.Parser.Reads.{Live, unsummed_read}
use rust_delharc.Header.Parser.Examined.{Chain, min_header_len-least, Examined, examine-Examined}

module _ (rd : Read) (laws : IsReader rd) (x : Prefix)
    (short : x.long_header_len ≡ 0 → x.level < 2) where
  -- How much has been read of what may be, of the long header or of the data of level 0 and 1.
  used : Collected → Parser rd → ℕ
  used c p = if x.long_header_len == 0 then length c.extra_headers else p.len

  limit : Collected → ℕ
  limit c = if x.long_header_len == 0 then c.compressed_size else x.long_header_len + 2

  -- A round of the loop has read a header.
  record Round (len : ℕ) (c : Collected) (p : Parser rd) (n : ℕ) (c' : Collected) (t : Parser rd)
      : Type 0 where
    pub live : Live rd laws t
    pub header : List ℕ
    pub whole : length header ≡ len
    pub least : min_header_len x.level ≤ len
    pub collected : c'.extra_headers ≡ c.extra_headers ++ header
    pub next : n ≡ next_len x.level header
    pub grows : used c' t ≡ used c p + len
    pub fits : used c p + len ≤ limit c
    pub bounded : limit c' ≡ limit c

  checked :
      (len : ℕ) (c : Collected) (p : Parser rd)
      → Live rd laws p
      → Ends
          (λ u t. (p ≡ t) × (min_header_len x.level ≤ len) × (used c p + len ≤ limit c))
          (Live rd laws)
          (check_extra rd x len c p)
  unfolding check_extra used limit
  checked len c p v = elim (Bool-cases (ltb len (min_header_len x.level))) [
    | inl e ↦ rw e v
    | inr e ↦
        let enough = ltb-false→≤ _ _ e in
        elim (Bool-cases (x.long_header_len == 0)) [
          | inl f ↦ elim (Bool-cases (ltb c.compressed_size (length c.extra_headers + len))) [
            | inl g ↦ rw (e, f, g) v
            | inr g ↦ rw (e, f, g) (refl, enough, ltb-false→≤ _ _ g)
          ]
          | inr f ↦ elim (Bool-cases (ltb x.long_header_len (p.len + len - 2))) [
            | inl g ↦ rw (e, f, g) v
            | inr g ↦ let fits = ltb-false→≤ _ _ g in rw (e, f, g) (refl, enough, omega arith)
          ]
        ]
  ]

  updated-Live :
      (bytes : List ℕ) (t : Parser rd)
      → Live rd laws t
      → Live rd laws (update_checksums_no_wrapping_sum rd bytes t)
  unfolding update_checksums_no_wrapping_sum
  updated-Live bytes t h = h

  growth :
      (header : List ℕ) (c c' : Collected) (p t : Parser rd) (len : ℕ)
      → t.len ≡ p.len
      → length header ≡ len
      → used
          (record c' { extra_headers = c.extra_headers ++ header })
          (update_checksums_no_wrapping_sum rd header t)
        ≡ used c p + len
  unfolding used update_checksums_no_wrapping_sum
  growth header c c' p t len e size = elim (Bool-cases (x.long_header_len == 0)) [
    | inl f ↦ rw f (omega (arith, length-append c.extra_headers header))
    | inr f ↦ rw f (omega arith)
  ]

  bounded_size :
      (c c' : Collected) (bytes : List ℕ)
      → (x.level < 2 → c'.compressed_size ≡ c.compressed_size)
      → limit (record c' { extra_headers = bytes }) ≡ limit c
  unfolding limit
  bounded_size c c' bytes same = elim (Bool-cases (x.long_header_len == 0)) [
    | inl f ↦ rw f (same (short ((==_iff _ _).0 f)))
    | inr f ↦ rw f refl
  ]

  one_read :
      (len : ℕ) (c : Collected) (p : Parser rd)
      → Live rd laws p
      → Ends (λ next t. Round len c p next.0 next.1 t) (Live rd laws) (read_one rd x len c p)
  unfolding read_one
  one_read len c p v =
      Ends-bind (λ u t. (p ≡ t) × (min_header_len x.level ≤ len) × (used c p + len ≤ limit c))
        (λ next t. Round len c p next.0 next.1 t) (Live rd laws) (check_extra rd x len c) _ p
        (checked len c p v)
        (λ u t1 (same, least, fits).
          Ends-bind (λ bytes t. (length bytes ≡ len) × Live rd laws t × (t.len ≡ p.len))
            (λ next t. Round len c p next.0 next.1 t) (Live rd laws)
            (read_limit_no_checksums rd len) _ t1
            (subst
              (λ (y : Parser rd).
                Ends (λ bytes t. (length bytes ≡ len) × Live rd laws t × (t.len ≡ p.len))
                  (Live rd laws) (read_limit_no_checksums rd len y))
              same
              (Ends-mono
                (λ bytes t.
                  (length bytes ≡ len) × AreBytes bytes × Live rd laws t × (t.len ≡ p.len))
                (λ bytes t. (length bytes ≡ len) × Live rd laws t × (t.len ≡ p.len)) (Live rd laws)
                (Live rd laws) (read_limit_no_checksums rd len p) (unsummed_read rd laws len p v)
                (λ s j. j) (λ bytes t (size, are, h, e). (size, h, e))))
            (λ bytes t (size, h, e).
              kept bytes size least fits t h e (examine x.level bytes c)
                (examine-Examined x.level bytes c)))
    where
      kept :
          (bytes : List ℕ)
          → length bytes ≡ len
          → min_header_len x.level ≤ len
          → used c p + len ≤ limit c
          → (t : Parser rd) → Live rd laws t
          → t.len ≡ p.len
          → (o : Option (List ℕ × Collected)) → Examined x.level bytes c o
          → Ends
              (λ next t. Round len c p next.0 next.1 t)
              (Live rd laws)
              ((elim o as (λ y. Prog (LhaError rd.Error) (Parser rd) (ℕ × Collected)) [
                | none ↦ fail (header_parse "double common CRC-16 header")
                | some (kept, c') ↦
                    modify (update_checksums_no_wrapping_sum rd kept)
                    >> ret (
                      next_len x.level kept,
                      record c' { extra_headers = c.extra_headers ++ kept },
                    )
              ])
                t)
      kept bytes size least fits t h e none ex = h
      kept bytes size least fits t h e (some (header, c')) (same, size_kept) = record {
        live = updated-Live header t h;
        header = header;
        whole = omega arith;
        least = least;
        collected = refl;
        next = refl;
        grows = growth header c c' p t len e (omega arith);
        fits = fits;
        bounded = bounded_size c c' (c.extra_headers ++ header) size_kept;
      }

  -- Headers have been added to those collected.
  abbrev pub Added : ℕ → Collected → Collected → Parser rd → Type 0
  Added len c c' t =
      Live rd laws t
      × ((hs : List (List ℕ)) × (bytes : List ℕ) × (c'.extra_headers ≡ c.extra_headers ++ bytes)
          × Chain x.level hs len bytes)

  none-Added :
      (len : ℕ) (c : Collected) (p : Parser rd) → len ≡ 0 → Live rd laws p → Added len c c p
  none-Added len c p e v = (v, ([], [], sym (append_nil c.extra_headers), (e, refl)))

  -- Each round takes up room, so that the fuel is never used up.
  headers_read :
      (fuel len : ℕ) (c : Collected) (p : Parser rd)
      → Live rd laws p
      → limit c + 1 ≤ used c p + 3 * fuel
      → (0 < fuel) ⊎ (used c p ≤ limit c)
      → Ends (Added len c) (Live rd laws) (extra_loop rd x fuel len c p)
  unfolding extra_loop
  headers_read zero len c p v m room = elim room [
    | inl some_left ↦ absurd (omega arith)
    | inr within ↦ absurd (omega arith)
  ]
  headers_read (suc fuel) len c p v m room = elim (Bool-cases (len == 0)) [
    | inl e ↦ rw (e, Ends) (none-Added len c p ((==_iff len 0).0 e) v)
    | inr e ↦
        rw (e, Ends)
          (Ends-bind (λ next t. Round len c p next.0 next.1 t) (Added len c) (Live rd laws)
            (read_one rd x len c) _ p (one_read len c p v)
            (λ (n, c') t r.
              let three = min_header_len-least x.level in
              let grows = r.grows in
              let fits = r.fits in
              let least = r.least in
              let bounded = r.bounded in
              Ends-mono (Added n c') (Added len c) (Live rd laws) (Live rd laws)
                (extra_loop rd x fuel n c' t)
                (headers_read fuel n c' t r.live (omega arith) (inr (omega arith))) (λ s j. j)
                (λ d u added. one_more len c p n c' t r d u added)))
  ]
    where
      one_more :
          (len : ℕ) (c : Collected) (p : Parser rd) (n : ℕ) (c' : Collected) (t : Parser rd)
          → Round len c p n c' t
          → (d : Collected) (u : Parser rd) → Added n c' d u
          → Added len c d u
      one_more len c p n c' t r d u (h, (hs, bytes, e, chain)) = (
        h,
        (
          r.header ∷ hs,
          r.header ++ bytes,
          e
              ∙ ap (λ (b : List ℕ). b ++ bytes) r.collected
              ∙ append_assoc c.extra_headers r.header bytes,
          (
            sym r.whole,
            (let least = r.least in let whole = r.whole in omega arith),
            (bytes, refl, subst (λ (m : ℕ). Chain x.level hs m bytes) r.next chain),
          ),
        ),
      )

  enough :
      (p : Parser rd)
      → limit (none_collected x) + 1
        ≤ used (none_collected x) p + 3 * (x.long_header_len + x.compressed_size + 1)
  unfolding limit used
  enough p = elim (Bool-cases (x.long_header_len == 0)) [
    | inl e ↦ rw e (omega arith)
    | inr e ↦ rw e (omega arith)
  ]

  pub extra_read :
      (p : Parser rd)
      → Live rd laws p
      → Ends
          (λ c t.
            Live rd laws t
            × ((hs : List (List ℕ)) × Chain x.level hs x.first_header_len c.extra_headers))
          (Live rd laws)
          (read_extra rd x p)
  unfolding read_extra
  extra_read p v =
      let fuel = x.long_header_len + x.compressed_size + 1 in
      Ends-mono (Added x.first_header_len (none_collected x)) _ (Live rd laws) (Live rd laws)
        (extra_loop rd x fuel x.first_header_len (none_collected x) p)
        (headers_read fuel x.first_header_len (none_collected x) p v (enough p) (inl (omega arith)))
        (λ s j. j)
        (λ c t (h, (hs, bytes, e, chain)).
          (h, (hs, subst (λ (b : List ℕ). Chain x.level hs x.first_header_len b) (sym e) chain)))
