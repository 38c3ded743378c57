-- ===== src/Header/Names/Printable.antt =====
-- src/header/parser.rs: what `parse_str_nilterm` makes of any bytes.
use rust_delharc.Prelude.{
  ℕ, suc, ◌+◌, ◌-◌, ◌*◌, ◌/◌, ◌%◌, ◌≤◌, ◌<◌, ◌≡◌, ◌≢◌, ◌⊎◌, inl, inr, refl, ap, ◌∙◌, Bool, true,
  false, not, ◌&&◌, ◌||◌, Bool-cases, Option, none, some, List, [], ◌∷◌, ◌++◌, All, length, take,
  drop, ltb, ltb-false→≤, and_true, or_false, and-false, ◌==◌, ==_iff, arith,
}
use native.Mathlib.Nat.{mod-lt, div-lt_iff_lt-mul}
use rust_delharc.Header.Names.{position, hex_digit, is_special, escape, parse_str_nilterm}

-- What the platform is relied on for: only the two slashes may separate directories.
abbrev pub AreSlashes : (ℕ → Bool) → Type 0
AreSlashes is_separator = (c : ℕ) → is_separator c ≡ true → (c ≡ b'/') ⊎ (c ≡ b'\\')

special-false : (c : ℕ) → is_special c ≡ false → (0x20 ≤ c) × (c < 0x7f)
unfolding is_special
special-false c h = ground arith

special-true : (c : ℕ) → is_special c ≡ true → (c < 0x20) ⊎ (0x7f ≤ c)
unfolding is_special
special-true c h = ground arith

module _ (is_separator : ℕ → Bool) where
  -- The character is printable ASCII, and no separator of directories unless these are ignored.
  abbrev pub IsClean : Bool → ℕ → Type 0
  IsClean ignore_sep c = (0x20 ≤ c) × (c < 0x7f) × (not ignore_sep && is_separator c ≡ false)

  pub escape_nil : (nilterm ignore_sep : Bool) → escape is_separator nilterm ignore_sep [] ≡ []
  unfolding escape
  escape_nil nilterm ignore_sep = refl

  -- The four things that the loop does with a character.
  pub escape-cases :
      (nilterm ignore_sep : Bool) (b : ℕ) (bs : List ℕ)
      → ((b ≡ 0) × (nilterm ≡ true) × (escape is_separator nilterm ignore_sep (b ∷ bs) ≡ []))
        ⊎ ((is_special b ≡ true)
            × (escape is_separator nilterm ignore_sep (b ∷ bs)
                ≡ b'%'
                  ∷ hex_digit (b / 16)
                  ∷ hex_digit (b % 16)
                  ∷ escape is_separator nilterm ignore_sep bs))
        ⊎ (((not ignore_sep && is_separator b) ≡ true)
            × (escape is_separator nilterm ignore_sep (b ∷ bs)
                ≡ b'_' ∷ escape is_separator nilterm ignore_sep bs))
        ⊎ (IsClean ignore_sep b
            × (escape is_separator nilterm ignore_sep (b ∷ bs)
                ≡ b ∷ escape is_separator nilterm ignore_sep bs))
  unfolding escape
  escape-cases nilterm ignore_sep b bs = elim (Bool-cases (b == 0 && nilterm)) [
    | inl e ↦
        let (nil, term) = and_true (b == 0) nilterm e in inl ((==_iff b 0).0 nil, term, rw e refl)
    | inr e ↦ elim (Bool-cases (is_special b)) [
      | inl f ↦ inr (inl (f, rw (e, f) refl))
      | inr f ↦ elim (Bool-cases (not ignore_sep && is_separator b)) [
        | inl g ↦ inr (inr (inl (g, rw (e, f, g) refl)))
        | inr g ↦
            let (low, high) = special-false b f in
            inr (inr (inr ((low, high, g), rw (e, f, g) refl)))
      ]
    ]
  ]

  module _ (slashes : AreSlashes is_separator) (ignore_sep : Bool) where
    not_slash : (c : ℕ) → c ≢ b'/' → c ≢ b'\\' → (not ignore_sep && is_separator c) ≡ false
    not_slash c h k = elim (Bool-cases (is_separator c)) [
      | inl e ↦ elim (slashes c e) [ inl f ↦ absurd (h f) | inr f ↦ absurd (k f) ]
      | inr e ↦ rw e (and-false (not ignore_sep))
    ]

    hex_digit-IsClean : (d : ℕ) → d < 16 → IsClean ignore_sep (hex_digit d)
    unfolding hex_digit
    hex_digit-IsClean d h = elim (Bool-cases (ltb d 10)) [
      | inl e ↦
          rw e
            (omega arith, ground arith, not_slash (b'0' + d) (λ f. omega arith) (λ f. omega arith))
      | inr e ↦
          let g = ltb-false→≤ _ _ e in
          rw e (
            omega arith,
            omega arith,
            not_slash (b'a' + d - 10) (λ f. omega arith) (λ f. omega arith),
          )
    ]

    escape-IsClean :
        (nilterm : Bool) (bytes : List ℕ)
        → All (λ b. b < 256) bytes
        → All (IsClean ignore_sep) (escape is_separator nilterm ignore_sep bytes)
    unfolding escape
    escape-IsClean nilterm [] h = tt
    escape-IsClean nilterm (b ∷ bs) (h, hs) =
        let rest = escape-IsClean nilterm bs hs in
        elim (escape-cases nilterm ignore_sep b bs) [
          | inl (z, t, e) ↦ rw e tt
          | inr (inl (special, e)) ↦
              let high : b / 16 < 16 =
                (div-lt_iff_lt-mul {x = b} {y = 16} (omega arith)).1 (omega arith) in
              rw e (
                (omega arith, omega arith, not_slash b'%' (λ f. omega arith) (λ f. omega arith)),
                (
                  hex_digit-IsClean (b / 16) high,
                  (hex_digit-IsClean (b % 16) (mod-lt b (omega arith)), rest),
                ),
              )
          | inr (inr (inl (separator, e))) ↦ rw e (
            (omega arith, omega arith, not_slash b'_' (λ f. omega arith) (λ f. omega arith)),
            rest,
          )
          | inr (inr (inr (clean, e))) ↦ rw e (clean, rest)
        ]

  module _ (nilterm ignore_sep : Bool) where
    -- The bytes up to the first one to change, and the escaped rest.
    from_position : Option ℕ → List ℕ → List ℕ
    from_position o bytes = elim o [
      | some index ↦ take index bytes ++ escape is_separator nilterm ignore_sep (drop index bytes)
      | none ↦ bytes
    ]

    step_over :
        (o : Option ℕ) (b : ℕ) (bs : List ℕ)
        → from_position (elim o as (λ x. Option ℕ) [ some i ↦ some (suc i) | none ↦ none ]) (b ∷ bs)
          ≡ b ∷ from_position o bs
    unfolding from_position
    step_over none b bs = refl
    step_over (some i) b bs = refl

    -- `parse_str_nilterm`, which keeps the bytes up to the first one to change as they are, returns
    -- what its loop over the characters makes of all bytes.
    pub parse_str_nilterm-eq-escape :
        (bytes : List ℕ)
        → parse_str_nilterm is_separator bytes nilterm ignore_sep
          ≡ escape is_separator nilterm ignore_sep bytes
    unfolding parse_str_nilterm position escape from_position
    parse_str_nilterm-eq-escape [] = refl
    parse_str_nilterm-eq-escape (b ∷ bs) =
        let changes = is_special b || (not ignore_sep && is_separator b) in
        elim (Bool-cases changes) [
          | inl e ↦ rw (e, parse_str_nilterm) refl
          | inr e ↦
              let (plain, other) = or_false (is_special b) (not ignore_sep && is_separator b) e in
              let (low, high) = special-false b plain in
              let nonzero : (b == 0) ≡ false = ground arith in
              rw (e, nonzero, plain, other, parse_str_nilterm, escape)
                (step_over (position (λ c. is_special c || (not ignore_sep && is_separator c)) bs) b
                    bs
                  ∙ ap (◌∷◌ b) (parse_str_nilterm-eq-escape bs))
        ]

  -- On a platform on which only the two slashes may separate directories, `parse_str_nilterm` makes
  -- printable ASCII characters of any bytes, and none that separates directories unless these are
  -- ignored.
  pub parse_str_nilterm-IsClean :
      AreSlashes is_separator
      → (nilterm ignore_sep : Bool) (bytes : List ℕ) → All (λ b. b < 256) bytes
      → All (IsClean ignore_sep) (parse_str_nilterm is_separator bytes nilterm ignore_sep)
  parse_str_nilterm-IsClean slashes nilterm ignore_sep bytes h =
      rw (parse_str_nilterm-eq-escape nilterm ignore_sep bytes)
        (escape-IsClean slashes ignore_sep nilterm bytes h)

  -- `parse_str_nilterm` leaves printable ASCII characters alone, if none separates directories or
  -- these are ignored.
  pub parse_str_nilterm-clean :
      (nilterm ignore_sep : Bool) (bytes : List ℕ)
      → All (IsClean ignore_sep) bytes
      → parse_str_nilterm is_separator bytes nilterm ignore_sep ≡ bytes
  parse_str_nilterm-clean nilterm ignore_sep bytes h =
      parse_str_nilterm-eq-escape nilterm ignore_sep bytes ∙ kept bytes h
    where
      kept :
          (bytes : List ℕ)
          → All (IsClean ignore_sep) bytes
          → escape is_separator nilterm ignore_sep bytes ≡ bytes
      kept [] h = escape_nil nilterm ignore_sep
      kept (b ∷ bs) ((low, high, other), hs) = elim (escape-cases nilterm ignore_sep b bs) [
        | inl (z, t, e) ↦ absurd (omega arith)
        | inr (inl (special, e)) ↦ elim (special-true b special) [
          | inl f ↦ absurd (omega arith)
          | inr f ↦ absurd (omega arith)
        ]
        | inr (inr (inl (separator, e))) ↦ cc
        | inr (inr (inr (clean, e))) ↦ e ∙ ap (◌∷◌ b) (kept bs hs)
      ]

  -- `parse_str_nilterm` returns at most three times as many characters as it is given bytes, which
  -- is the capacity that it reserves.
  pub length-parse_str_nilterm :
      (nilterm ignore_sep : Bool) (bytes : List ℕ)
      → length (parse_str_nilterm is_separator bytes nilterm ignore_sep) ≤ 3 * length bytes
  length-parse_str_nilterm nilterm ignore_sep bytes =
      rw (parse_str_nilterm-eq-escape nilterm ignore_sep bytes) (short bytes)
    where
      short :
          (bytes : List ℕ)
          → length (escape is_separator nilterm ignore_sep bytes) ≤ 3 * length bytes
      short [] = rw (escape_nil nilterm ignore_sep) (omega arith)
      short (b ∷ bs) =
          let rest = short bs in
          elim (escape-cases nilterm ignore_sep b bs) [
            | inl (z, t, e) ↦ rw e (omega arith)
            | inr (inl (special, e)) ↦ rw e (omega arith)
            | inr (inr (inl (separator, e))) ↦ rw e (omega arith)
            | inr (inr (inr (clean, e))) ↦ rw e (omega arith)
          ]
