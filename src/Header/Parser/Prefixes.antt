-- ===== src/Header/Parser/Prefixes.antt =====
-- src/header/parser.rs: the part of a header before the extra headers, over any reader that keeps its
-- promises.
use rust_delharc.Prelude.{
  ℕ, ◌+◌, ◌-◌, ◌^◌, ◌≤◌, ◌<◌, ◌≡◌, ◌⊎◌, inl, inr, refl, ap, Bool, true, false, not, ◌&&◌, ◌||◌,
  Bool-cases, [], u32, ltb, ltb-false→≤, ltb→lt, ◌==◌, ==_iff, if◌then◌else◌, arith,
}
use mathlib.Core.Path.{subst}
use rust_delharc.Outcome.{Ends, ◌>>◌, ret, fail_if, assert}
use rust_delharc.Outcome.Rules.{Ends-bind, Ends-mono, Ends-fail_if, Ends-if}
use rust_delharc.Error.{LhaError, header_parse}
use rust_delharc.StubIo.{Read}
use rust_delharc.StubIo.Laws.{IsReader}
use rust_delharc.Header.Parser.Reader.{Parser, read_exact, read_u8, read_u16, read_u32, read_limit}
use rust_delharc.Header.Parser.Base.{
  Prefix, raw_base_header, read_filename, read_extended, read_header_lens, check_lens, read_prefix,
}
use rust_delharc.Header.Parser.Reads.{
  Live, Ahead, exact_read, limit_read, u8_read, u16_read, u32_read,
}

two_or_three : (n : ℕ) → 2 ≤ n → n ≤ 3 → (n ≡ 2) ⊎ (n ≡ 3)
two_or_three n h k = ground arith

module _ (rd : Read) (laws : IsReader rd) where
  abbrev pub Alive : Parser rd → Type 0
  Alive = Live rd laws

  -- From level 2 on, `n` bytes in all have been read.
  abbrev At : ℕ → ℕ → Parser rd → Type 0
  At level n t = Alive t × (2 ≤ level → t.len ≡ n)

  filename_read :
      (level header_len n : ℕ) (p : Parser rd)
      → At level n p
      → Ends (λ f t. At level n t) Alive (read_filename rd level header_len p)
  unfolding read_filename
  filename_read level header_len n p (v, e) =
      Ends-if (λ f t. At level n t) Alive (ltb level 2) _ (ret []) p
        (λ low.
          let is_low = ltb→lt _ _ low in
          Ends-bind (λ b t. Ahead rd laws p 1 t) (λ f t. At level n t) Alive (read_u8 rd) _ p
            (u8_read rd laws p v)
            (λ filename_len t (h, m).
              Ends-fail_if (λ f t. At level n t) Alive (ltb header_len (t.len + filename_len)) _
                (read_limit rd filename_len) t h
                (λ enough.
                  Ends-mono (λ f u. Ahead rd laws t filename_len u) (λ f t. At level n t) Alive
                    Alive (read_limit rd filename_len t) (limit_read rd laws filename_len t h)
                    (λ s j. j) (λ f u (k, l). (k, λ g. absurd (omega arith))))))
        (λ high. (v, e))

  extended_read :
      (level header_len os_type n : ℕ) (p : Parser rd)
      → At level n p
      → Ends (λ f t. At level n t) Alive (read_extended rd level header_len os_type p)
  unfolding read_extended
  extended_read level header_len os_type n p (v, e) =
      Ends-if (λ f t. At level n t) Alive (ltb level 2) _ (ret (os_type, [])) p
        (λ low.
          let is_low = ltb→lt _ _ low in
          let min_len = if level == 0 then p.len - 2 else p.len in
          let with_os_type = not (header_len - min_len == 0) && level == 0 in
          let rest_len = if with_os_type then header_len - min_len - 1 else header_len - min_len in
          Ends-fail_if (λ f t. At level n t) Alive (ltb header_len min_len) _ _ p v
            (λ enough.
              Ends-bind (λ b t. Alive t) (λ f t. At level n t) Alive
                (if with_os_type then read_u8 rd else ret os_type) _ p
                (Ends-if (λ b t. Alive t) Alive with_os_type (read_u8 rd) (ret os_type) p
                  (λ g.
                    Ends-mono (λ b t. Ahead rd laws p 1 t) (λ b t. Alive t) Alive Alive
                      (read_u8 rd p) (u8_read rd laws p v) (λ s j. j) (λ b t h. h.0))
                  (λ g. v))
                (λ os_type' t h.
                  Ends-bind (λ b t. Alive t) (λ f t. At level n t) Alive
                    (if rest_len == 0 then ret [] else read_limit rd rest_len) _ t
                    (Ends-if (λ b t. Alive t) Alive (rest_len == 0) (ret [])
                      (read_limit rd rest_len) t (λ g. h)
                      (λ g.
                        Ends-mono (λ b u. Ahead rd laws t rest_len u) (λ b t. Alive t) Alive Alive
                          (read_limit rd rest_len t) (limit_read rd laws rest_len t h) (λ s j. j)
                          (λ b t h. h.0)))
                    (λ area u k. (k, λ g. absurd (omega arith))))))
        (λ high. (v, e))

  abbrev Lens : ℕ → ℕ → ℕ × ℕ → Parser rd → Type 0
  Lens level n lens t = Alive t × (level ≡ 3 → t.len ≡ n + 8) × (level ≡ 2 → 0 < lens.1)

  Lens-read :
      (level header_len csum n : ℕ) (p : Parser rd)
      → At level n p
      → 0 < header_len
      → Ends (Lens level n) Alive (read_header_lens rd level header_len csum p)
  unfolding read_header_lens
  Lens-read level header_len csum n p (v, e) pos =
      Ends-if (Lens level n) Alive (level == 1) _ _ p
        (λ one.
          let l = (==_iff level 1).0 one in
          Ends-bind (λ b t. Ahead rd laws p 2 t) (Lens level n) Alive (read_u16 rd) _ p
            (u16_read rd laws p v)
            (λ first t (h, m). (h, (λ g. absurd (omega arith)), (λ g. absurd (omega arith)))))
        (λ not_one.
          Ends-if (Lens level n) Alive (level == 2) _ _ p
            (λ two.
              let l = (==_iff level 2).0 two in
              Ends-bind (λ b t. Ahead rd laws p 2 t) (Lens level n) Alive (read_u16 rd) _ p
                (u16_read rd laws p v)
                (λ first t (h, m). (h, (λ g. absurd (omega arith)), (λ g. omega arith))))
            (λ not_two.
              let below : (level ≡ 2) → ⊥ = λ g. cc ((==_iff level 2).1 g) in
              Ends-if (Lens level n) Alive (level == 3) _ (ret (0, 0)) p
                (λ three.
                  let l = (==_iff level 3).0 three in
                  Ends-bind (λ b t. Ahead rd laws p 4 t) (Lens level n) Alive (read_u32 rd) _ p
                    (u32_read rd laws p v)
                    (λ long t (h, m).
                      Ends-bind (λ b u. Ahead rd laws t 4 u) (Lens level n) Alive (read_u32 rd) _ t
                        (u32_read rd laws t h)
                        (λ first u (k, o).
                          Ends-fail_if (Lens level n) Alive
                            (not (header_len == 4) || not (csum == 0)) _ (ret (first, long)) u k
                            (λ g. (
                              k,
                              (λ three. let s = e (omega arith) in omega arith),
                              (λ two. absurd (below two)),
                            )))))
                (λ not_three. (v, (λ g. cc ((==_iff level 3).1 g)), (λ g. absurd (below g))))))

  Lens-checked :
      (level csum : ℕ) (lens : ℕ × ℕ) (p : Parser rd)
      → level ≤ 3
      → Lens level 24 lens p
      → Ends (λ u t. (p ≡ t) × (lens.1 ≡ 0 → level < 2)) Alive (check_lens rd level csum lens p)
  unfolding check_lens
  Lens-checked level csum (first, long) p low (v, three, two) = elim (Bool-cases (ltb level 2)) [
    | inl short ↦ let few = ltb→lt _ _ short in rw short (by_sum (csum == p.csum) few)
    | inr far ↦
        let least = ltb-false→≤ _ _ far in
        rw far
          (by_assert (ltb (u32 p.len + first) (2 ^ 32)) (ltb long (u32 p.len + first)) least refl)
  ]
    where
      Checked : Unit {0} → Parser rd → Type 0
      Checked u t = (p ≡ t) × (long ≡ 0 → level < 2)

      by_sum :
          (c : Bool)
          → level < 2
          → Ends {E = LhaError rd.Error} Checked Alive
              (fail_if (not c) (header_parse "invalid header level checksum") p)
      by_sum true few = (refl, λ g. few)
      by_sum false few = v

      by_assert :
          (c d : Bool)
          → 2 ≤ level
          → ltb long (u32 p.len + first) ≡ d
          → Ends {E = LhaError rd.Error} Checked Alive
              ((assert c >> fail_if d (header_parse "wrong header size")) p)
      by_assert false d least e = tt
      by_assert true true least e = v
      by_assert true false least e =
          let enough = ltb-false→≤ _ _ e in
          (
            refl,
            λ z. elim (two_or_three level least low) [
              | inl is_two ↦ let t = two is_two in absurd (omega arith)
              | inr is_three ↦
                  let len : u32 p.len ≡ 32 = ap u32 (three is_three) in absurd (omega arith)
            ],
          )

  -- What is known of the base header: only at the levels 0 and 1 is there no total length.
  abbrev pub IsPrefix : Prefix → Parser rd → Type 0
  IsPrefix x t = Alive t × (x.long_header_len ≡ 0 → x.level < 2)

  pub prefix_read :
      (header_len : ℕ) (p : Parser rd)
      → Alive p
      → p.len ≡ 1
      → 0 < header_len
      → Ends IsPrefix Alive (read_prefix rd header_len p)
  unfolding read_prefix raw_base_header
  prefix_read header_len p v e pos =
      Ends-bind (λ b t. Ahead rd laws p 1 t) IsPrefix Alive (read_u8 rd) _ p (u8_read rd laws p v)
        (λ csum t1 (h1, e1).
          Ends-bind (λ bytes t. Alive t × (t.len ≡ 21)) IsPrefix Alive (read_exact rd 19) _
            (record t1 { csum = 0 })
            (Ends-mono (λ bytes t. Ahead rd laws (record t1 { csum = 0 }) 19 t)
              (λ bytes t. Alive t × (t.len ≡ 21)) Alive Alive
              (read_exact rd 19 (record t1 { csum = 0 }))
              (exact_read rd laws 19 (record t1 { csum = 0 }) h1) (λ s j. j)
              (λ bytes t (h, m). (h, omega arith)))
            (λ bytes t2 (h2, e2).
              let level = (raw_base_header bytes).lha_level in
              Ends-fail_if IsPrefix Alive (ltb 3 level) _ _ t2 h2 (λ low.
                Ends-bind (λ f t. At level 21 t) IsPrefix Alive (read_filename rd level header_len)
                  _ t2 (filename_read level header_len 21 t2 (h2, λ g. e2))
                  (λ filename t3 (h3, e3).
                    Ends-bind (λ b t. Ahead rd laws t3 2 t) IsPrefix Alive (read_u16 rd) _ t3
                      (u16_read rd laws t3 h3)
                      (λ file_crc t4 (h4, e4).
                        Ends-bind (λ b t. At level 24 t) IsPrefix Alive
                          (if ltb 0 level then read_u8 rd else ret 0) _ t4
                          (Ends-if (λ b t. At level 24 t) Alive (ltb 0 level) (read_u8 rd) (ret 0)
                            t4
                            (λ some_level.
                              Ends-mono (λ b t. Ahead rd laws t4 1 t) (λ b t. At level 24 t) Alive
                                Alive (read_u8 rd t4) (u8_read rd laws t4 h4) (λ s j. j)
                                (λ b t (h, m). (h, λ g. let q = e3 g in omega arith)))
                            (λ no_level.
                              (h4, λ g. let q = ltb-false→≤ _ _ no_level in absurd (omega arith))))
                          (λ os_type t5 h5.
                            Ends-bind (λ f t. At level 24 t) IsPrefix Alive
                              (read_extended rd level header_len os_type) _ t5
                              (extended_read level header_len os_type 24 t5 h5)
                              (λ extended t6 h6.
                                Ends-bind (Lens level 24) IsPrefix Alive
                                  (read_header_lens rd level header_len csum) _ t6
                                  (Lens-read level header_len csum 24 t6 h6 pos)
                                  (λ lens t7 h7.
                                    Ends-bind (λ u t. (t7 ≡ t) × (lens.1 ≡ 0 → level < 2)) IsPrefix
                                      Alive (check_lens rd level csum lens) _ t7
                                      (Lens-checked level csum lens t7 (ltb-false→≤ _ _ low) h7)
                                      (λ u t8 (same, short). (
                                        subst (λ (x : Parser rd). Alive x) same h7.0,
                                        short,
                                      ))))))))))
