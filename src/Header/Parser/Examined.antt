-- ===== src/Header/Parser/Examined.antt =====
-- src/header/parser.rs: what the parser keeps of one extra header, and headers that stand one after the
-- other.
use rust_delharc.Prelude.{
  ℕ, suc, ◌≤◌, ◌<◌, ◌≡◌, inl, inr, refl, ap, Bool, true, false, ◌&&◌, ◌||◌, Bool-cases, Option,
  none, some, List, [], ◌∷◌, ◌++◌, length, leb, and_true, ◌==◌, arith,
}
use rust_delharc.Header.Bytes.{
  ext_header_common, ext_header_msdos_attrs, ext_header_msdos_size, ext_header_ext_attrs,
}
use rust_delharc.Header.Parser.Extra.{
  Collected, examine, zero_crc, crc_field, next_len, min_header_len,
}

-- The bytes are headers one after the other: the first is `len` bytes long, each ends with the
-- length of the next one, and the last with 0.
abbrev pub Chain : ℕ → List (List ℕ) → ℕ → List ℕ → Type 0
Chain level [] len bytes = (len ≡ 0) × (bytes ≡ [])
Chain level (h ∷ hs) len bytes =
    (len ≡ length h)
    × (min_header_len level ≤ length h)
    × ((rest : List ℕ) × (bytes ≡ h ++ rest) × Chain level hs (next_len level h) rest)

pub min_header_len-least : (level : ℕ) → 3 ≤ min_header_len level
min_header_len-least level = ground arith

-- What `examine` keeps of a header and of the variables.
abbrev pub Examined : ℕ → List ℕ → Collected → Option (List ℕ × Collected) → Type 0
Examined level header c none = Unit
Examined level header c (some (kept, c')) =
    (length kept ≡ length header) × (level < 2 → c'.compressed_size ≡ c.compressed_size)

pub length-zero_crc : (bytes : List ℕ) → length (zero_crc bytes) ≡ length bytes
length-zero_crc [] = refl
length-zero_crc (lo ∷ []) = refl
length-zero_crc (lo ∷ hi ∷ rest) = refl

pub examine-Examined :
    (level : ℕ) (header : List ℕ) (c : Collected) → Examined level header c (examine level header c)
unfolding examine
examine-Examined level [] c = (refl, λ h. refl)
examine-Examined level (id ∷ body) c = elim (Bool-cases (id == ext_header_common)) [
  | inl e ↦ rw e (common c.header_crc)
  | inr e ↦
      elim (Bool-cases
        ((id == ext_header_msdos_attrs || id == ext_header_ext_attrs) && leb 2 (length body))) [
          | inl f ↦ rw (e, f) (refl, λ h. refl)
          | inr f ↦
              elim (Bool-cases
                (id == ext_header_msdos_size && leb 2 level && leb 16 (length body))) [
                  | inl g ↦
                      rw (e, f, g)
                        (
                          refl,
                          λ h.
                              absurd (low (id == ext_header_msdos_size) (leb 16 (length body)) g h),
                        )
                  | inr g ↦ rw (e, f, g) (refl, λ h. refl)
                ]
        ]
]
  where
    common :
        (o : Option ℕ)
        → Examined level (id ∷ body) c (elim o as (λ x. Option (List ℕ × Collected)) [
          | some _ ↦ none
          | none ↦ some (id ∷ zero_crc body, record c { header_crc = crc_field body })
        ])
    common none = (ap suc (length-zero_crc body), λ h. refl)
    common (some crc) = tt

    low : (a d : Bool) → (a && leb 2 level && d) ≡ true → level < 2 → ⊥
    low a d e h =
        let (both, last) = and_true (a && leb 2 level) d e in
        let (first, second) = and_true a (leb 2 level) both in
        let not_second : leb 2 level ≡ false = ground arith in cc
