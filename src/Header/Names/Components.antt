-- ===== src/Header/Names/Components.antt =====
-- src/header/parser.rs and src/header.rs: the components of a path, as a list of names, and the path
-- as a string.
use rust_delharc.Prelude.{
  ℕ, ◌/◌, ◌%◌, ◌≤◌, ◌<◌, ◌≡◌, ◌⊎◌, inl, inr, refl, Bool, false, Bool-cases, List, [], ◌∷◌, ◌++◌,
  All, All-append, length, and-false, ◌==◌, arith,
}
use rust_delharc.Header.Names.{
  split, hex_digit, is_path_separator, is_ignored, escape, parse_str_nilterm, push_parts,
  push_pathname,
}
use rust_delharc.Header.Names.Printable.{
  AreSlashes, IsClean, escape-cases, parse_str_nilterm-eq-escape, parse_str_nilterm-IsClean,
}

-- A path as the list of its components.
abbrev pub push_component : List (List ℕ) → List ℕ → List (List ℕ)
push_component path name = path ++ name ∷ []

long-kept : (bs : List ℕ) → 3 ≤ length bs → is_ignored bs ≡ false
unfolding is_ignored
long-kept [] h = absurd (omega arith)
long-kept (b ∷ []) h = absurd (omega arith)
long-kept (b ∷ c ∷ []) h = absurd (omega arith)
long-kept (b ∷ c ∷ d ∷ bs) h = refl

module _ (is_separator : ℕ → Bool) where
  abbrev name : List ℕ → List ℕ
  name bytes = escape is_separator false false bytes

  -- What one character becomes.
  escape_one :
      (b : ℕ) (bs : List ℕ)
      → ((c : ℕ) × (d : ℕ) × (e : ℕ) × (name (b ∷ bs) ≡ c ∷ d ∷ e ∷ name bs))
        ⊎ (name (b ∷ bs) ≡ b'_' ∷ name bs)
        ⊎ (name (b ∷ bs) ≡ b ∷ name bs)
  escape_one b bs = elim (escape-cases is_separator false false b bs) [
    | inl (z, t, e) ↦ cc t
    | inr (inl (special, e)) ↦ inl (b'%', hex_digit (b / 16), hex_digit (b % 16), e)
    | inr (inr (inl (separator, e))) ↦ inr (inl e)
    | inr (inr (inr (clean, e))) ↦ inr (inr e)
  ]

  pub length-name : (bs : List ℕ) → length bs ≤ length (name bs)
  unfolding escape
  length-name [] = omega arith
  length-name (b ∷ bs) =
      let rest = length-name bs in
      elim (escape_one b bs) [
        | inl (c, d, e, eq) ↦ rw eq (omega arith)
        | inr (inl eq) ↦ rw eq (omega arith)
        | inr (inr eq) ↦ rw eq (omega arith)
      ]

  name_nil : name [] ≡ []
  unfolding escape
  name_nil = refl

  -- A component that is not ignored becomes one that would not be ignored.
  name-kept : (part : List ℕ) → is_ignored part ≡ false → is_ignored (name part) ≡ false
  unfolding is_ignored
  name-kept [] h = cc h
  name-kept (b ∷ []) h = elim (escape_one b []) [
    | inl (c, d, e, eq) ↦ rw eq refl
    | inr (inl eq) ↦ rw (eq, name_nil) refl
    | inr (inr eq) ↦ rw (eq, name_nil) h
  ]
  name-kept (b ∷ c ∷ []) h = elim (escape_one b (c ∷ [])) [
    | inl (x, y, z, eq) ↦ rw eq refl
    | inr (inl eq) ↦ elim (escape_one c []) [
      | inl (x, y, z, next) ↦ rw (eq, next) refl
      | inr (inl next) ↦ rw (eq, next, name_nil) refl
      | inr (inr next) ↦ rw (eq, next, name_nil) refl
    ]
    | inr (inr eq) ↦ elim (escape_one c []) [
      | inl (x, y, z, next) ↦ rw (eq, next) refl
      | inr (inl next) ↦ rw (eq, next, name_nil) (and-false (b == b'.'))
      | inr (inr next) ↦ rw (eq, next, name_nil) h
    ]
  ]
  name-kept (b ∷ c ∷ d ∷ bs) h =
      long-kept (name (b ∷ c ∷ d ∷ bs)) (omega (arith, length-name (b ∷ c ∷ d ∷ bs)))

  -- A name of a file or of a directory: not empty, not `.` or `..`, of printable ASCII characters
  -- none of which separates directories.
  abbrev pub IsComponent : List ℕ → Type 0
  IsComponent bytes = (is_ignored bytes ≡ false) × All (IsClean is_separator false) bytes

  part-IsComponent :
      AreSlashes is_separator
      → (part : List ℕ) → All (λ b. b < 256) part
      → is_ignored part ≡ false
      → IsComponent (parse_str_nilterm is_separator part false false)
  part-IsComponent slashes part h k = (
    rw (parse_str_nilterm-eq-escape is_separator false false part) (name-kept part k),
    parse_str_nilterm-IsClean is_separator slashes false false part h,
  )

  push_parts-IsComponent :
      AreSlashes is_separator
      → (parts : List (List ℕ)) (path : List (List ℕ)) → All (All (λ b. b < 256)) parts
      → All IsComponent path
      → All IsComponent (push_parts is_separator push_component parts path)
  unfolding push_parts
  push_parts-IsComponent slashes [] path h v = v
  push_parts-IsComponent slashes (part ∷ parts) path (h, hs) v =
      elim (Bool-cases (is_ignored part)) [
        | inl e ↦ rw e (push_parts-IsComponent slashes parts path hs v)
        | inr e ↦ rw e (
            push_parts-IsComponent slashes parts
              (push_component path (parse_str_nilterm is_separator part false false)) hs
              (All-append IsComponent path (parse_str_nilterm is_separator part false false ∷ []) v
                (part-IsComponent slashes part h e, tt)))
      ]

  split-bytes :
      (test : ℕ → Bool) (bytes : List ℕ)
      → All (λ b. b < 256) bytes
      → let (part, parts) = split test bytes in All (All (λ b. b < 256)) (part ∷ parts)
  unfolding split
  split-bytes test [] h = (tt, tt)
  split-bytes test (b ∷ bs) (h, hs) =
      let (first, others) = split-bytes test bs hs in
      elim (Bool-cases (test b)) [
        | inl e ↦ rw e (tt, (first, others))
        | inr e ↦ rw e ((h, first), others)
      ]

  -- On a platform on which only the two slashes may separate directories, whatever bytes
  -- `parse_pathname` is given, each component that it adds to a path is neither empty nor `.` nor
  -- `..`, and is made of printable ASCII characters that do not separate directories, if those of
  -- the path were so.
  pub push_pathname-IsComponent :
      AreSlashes is_separator
      → (bytes : List ℕ) (path : List (List ℕ)) → All (λ b. b < 256) bytes
      → All IsComponent path
      → All IsComponent (push_pathname is_separator push_component bytes path)
  unfolding push_pathname
  push_pathname-IsComponent slashes bytes path h v =
      push_parts-IsComponent slashes
        ((split is_path_separator bytes).0 ∷ (split is_path_separator bytes).1) path
        (split-bytes is_path_separator bytes h) v
