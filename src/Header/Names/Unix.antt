-- ===== src/Header/Names/Unix.antt =====
-- src/header/parser.rs and src/header.rs: the path as a string, against a `PathBuf` of a platform
-- on which `/` separates directories and paths have no prefixes.
use rust_delharc.Prelude.{
  ℕ, ◌/◌, ◌%◌, ◌<◌, ◌≡◌, ◌≢◌, inl, inr, refl, ap, sym, ◌∙◌, Bool, true, false, Bool-cases, Option,
  none, some, List, [], ◌∷◌, ◌++◌, All, append_assoc, length, ==_iff, ◌==◌, if◌then◌else◌, arith,
}
use mathlib.Core.Option.{map}
use rust_delharc.Header.Types.{LhaHeader}
use rust_delharc.Header.Bytes.{ext_header_filename, ext_header_path}
use rust_delharc.Header.Extras.{Iteration, done, item, panicked, unfinished, extras}
use rust_delharc.Header.Names.{
  split, is_path_separator, is_ignored, hex_digit, escape, parse_str_nilterm, push_str, push_parts,
  push_pathname, name_headers, pathname, parse_pathname_to_str, is_amiga, split_data_at_nil_or_end,
}
use rust_delharc.Header.Names.Printable.{escape_nil, escape-cases, parse_str_nilterm-eq-escape}
use rust_delharc.Header.Names.Components.{length-name}

abbrev pub is_absolute : List ℕ → Bool
is_absolute [] = false
is_absolute (c ∷ cs) = c == b'/'

abbrev pub ends_with_slash : List ℕ → Bool
ends_with_slash [] = false
ends_with_slash (c ∷ []) = c == b'/'
ends_with_slash (c ∷ d ∷ cs) = ends_with_slash (d ∷ cs)

-- A path that another one can follow.
abbrev pub with_separator : List ℕ → List ℕ
with_separator [] = []
with_separator (c ∷ cs) = if ends_with_slash (c ∷ cs) then c ∷ cs else (c ∷ cs) ++ b'/' ∷ []

-- What `PathBuf::push` is documented to do without prefixes: an absolute path replaces the current
-- one, and a relative one is joined to it with a separator, unless there is one already.
abbrev pub push_path : List ℕ → List ℕ → List ℕ
push_path text name = if is_absolute name then name else with_separator text ++ name

-- `std::path::PathBuf`, with `new`, `push` and the bytes of `as_os_str`.
pub record PathBuf : Type 1 where
  pub State : Type 0
  pub new : State
  pub push : State → List ℕ → State
  pub as_bytes : State → List ℕ

pub record IsUnix (paths : PathBuf) : Type 0 where
  pub as_bytes-new : paths.as_bytes paths.new ≡ []
  pub as_bytes-push :
      (p : paths.State) (name : List ℕ)
      → paths.as_bytes (paths.push p name) ≡ push_path (paths.as_bytes p) name

abbrev HasNoSlash : List ℕ → Type 0
HasNoSlash = All (λ (c : ℕ). c ≢ b'/')

-- A name that can be pushed: not empty, and without slashes.
abbrev IsName : List ℕ → Type 0
IsName n = (0 < length n) × HasNoSlash n

slash-false : (c : ℕ) → c ≢ b'/' → (c == b'/') ≡ false
slash-false c h = elim (Bool-cases (c == b'/')) [
  | inl e ↦ absurd (h ((==_iff c b'/').0 e))
  | inr e ↦ e
]

name-relative : (n : List ℕ) → HasNoSlash n → is_absolute n ≡ false
name-relative [] h = refl
name-relative (c ∷ cs) (h, hs) = slash-false c h

name-end : (n : List ℕ) → HasNoSlash n → ends_with_slash n ≡ false
name-end [] h = refl
name-end (c ∷ []) (h, hs) = slash-false c h
name-end (c ∷ d ∷ cs) (h, hs) = name-end (d ∷ cs) hs

append-end : (xs n : List ℕ) → 0 < length n → ends_with_slash (xs ++ n) ≡ ends_with_slash n
append-end [] n h = refl
append-end (x ∷ []) [] h = absurd (omega arith)
append-end (x ∷ []) (c ∷ cs) h = refl
append-end (x ∷ y ∷ xs) n h = append-end (y ∷ xs) n h

hex_digit-slash : (d : ℕ) → hex_digit d ≢ b'/'
unfolding hex_digit
hex_digit-slash d e = ground arith

module _ (is_separator : ℕ → Bool) (slash : is_separator b'/' ≡ true) where
  escape-HasNoSlash :
      (nilterm : Bool) (bs : List ℕ) → HasNoSlash (escape is_separator nilterm false bs)
  escape-HasNoSlash nilterm [] = rw (escape_nil is_separator nilterm false) tt
  escape-HasNoSlash nilterm (b ∷ bs) =
      let rest = escape-HasNoSlash nilterm bs in
      elim (escape-cases is_separator nilterm false b bs) [
        | inl (nil, term, eq) ↦ rw eq tt
        | inr (inl (special, eq)) ↦
            let high = hex_digit-slash (b / 16) in
            let low = hex_digit-slash (b % 16) in
            rw eq ((λ e. absurd (omega arith)), (high, (low, rest)))
        | inr (inr (inl (separates, eq))) ↦ rw eq ((λ e. absurd (omega arith)), rest)
        | inr (inr (inr ((low, high, inside), eq))) ↦
            rw eq ((λ e. cc (sym inside ∙ ap is_separator e ∙ slash)), rest)
      ]

  name-HasNoSlash :
      (bytes : List ℕ) (nilterm : Bool)
      → HasNoSlash (parse_str_nilterm is_separator bytes nilterm false)
  name-HasNoSlash bytes nilterm =
      rw (parse_str_nilterm-eq-escape is_separator nilterm false bytes)
        (escape-HasNoSlash nilterm bytes)

  part-IsName :
      (part : List ℕ)
      → is_ignored part ≡ false
      → IsName (parse_str_nilterm is_separator part false false)
  unfolding is_ignored
  part-IsName [] h = cc h
  part-IsName (b ∷ bs) h = (
    omega (
      arith,
      length-name is_separator (b ∷ bs),
      ap (λ (t : List ℕ). length t) (parse_str_nilterm-eq-escape is_separator false false (b ∷ bs)),
    ),
    name-HasNoSlash (b ∷ bs) false,
  )

  module _ (paths : PathBuf) (unix : IsUnix paths) where
    abbrev SamePath : paths.State → List ℕ → Type 0
    SamePath path text = (paths.as_bytes path ≡ text) × (ends_with_slash text ≡ false)

    push_path-eq-push_str :
        (text n : List ℕ)
        → ends_with_slash text ≡ false
        → IsName n
        → (push_path text n ≡ push_str text n) × (ends_with_slash (push_str text n) ≡ false)
    unfolding push_str
    push_path-eq-push_str [] n e (h, free) = (rw (name-relative n free) refl, name-end n free)
    push_path-eq-push_str (c ∷ cs) n e (h, free) = (
      rw (name-relative n free, e) (append_assoc (c ∷ cs) (b'/' ∷ []) n),
      append-end (c ∷ cs) (b'/' ∷ n) (omega arith) ∙ append-end (b'/' ∷ []) n h ∙ name-end n free,
    )

    pushed :
        (path : paths.State) (text n : List ℕ)
        → SamePath path text
        → IsName n
        → SamePath (paths.push path n) (push_str text n)
    pushed path text n (e, end) h =
        let (same, end') = push_path-eq-push_str text n end h in
        (unix.as_bytes-push path n ∙ ap (λ (t : List ℕ). push_path t n) e ∙ same, end')

    parts_pushed :
        (parts : List (List ℕ)) (path : paths.State) (text : List ℕ)
        → SamePath path text
        → SamePath
            (push_parts is_separator paths.push parts path)
            (push_parts is_separator push_str parts text)
    unfolding push_parts
    parts_pushed [] path text h = h
    parts_pushed (part ∷ parts) path text h = elim (Bool-cases (is_ignored part)) [
      | inl e ↦ rw e (parts_pushed parts path text h)
      | inr e ↦
          let n = parse_str_nilterm is_separator part false false in
          rw e (
            parts_pushed parts (paths.push path n) (push_str text n)
              (pushed path text n h (part-IsName part e)))
    ]

    pathname_pushed :
        (bytes : List ℕ) (path : paths.State) (text : List ℕ)
        → SamePath path text
        → SamePath
            (push_pathname is_separator paths.push bytes path)
            (push_pathname is_separator push_str bytes text)
    unfolding push_pathname
    pathname_pushed bytes path text h =
        parts_pushed ((split is_path_separator bytes).0 ∷ (split is_path_separator bytes).1) path
          text h

    abbrev SameNames : Option (List ℕ × paths.State) → Option (List ℕ × List ℕ) → Type 0
    SameNames none none = Unit
    SameNames none (some y) = ⊥
    SameNames (some x) none = ⊥
    SameNames (some x) (some y) = (x.0 ≡ y.0) × HasNoSlash x.0 × SamePath x.1 y.1

    names_same :
        (nilterm : Bool) (headers : Iteration) (filename : List ℕ) (path : paths.State)
        (text : List ℕ)
        → HasNoSlash filename
        → SamePath path text
        → SameNames
            (name_headers is_separator paths.push nilterm headers filename path)
            (name_headers is_separator push_str nilterm headers filename text)
    unfolding name_headers
    names_same nilterm done filename path text k h = (refl, k, h)
    names_same nilterm (item [] headers) filename path text k h =
        names_same nilterm headers filename path text k h
    names_same nilterm (item (id ∷ bytes) headers) filename path text k h =
        elim (Bool-cases (id == ext_header_filename)) [
          | inl e ↦ rw e (
              names_same nilterm headers (parse_str_nilterm is_separator bytes nilterm false) path
                text (name-HasNoSlash bytes nilterm) h)
          | inr e ↦ elim (Bool-cases (id == ext_header_path)) [
            | inl f ↦
                rw (e, f)
                  (names_same nilterm headers filename
                    (push_pathname is_separator paths.push bytes path)
                    (push_pathname is_separator push_str bytes text) k
                    (pathname_pushed bytes path text h))
            | inr f ↦ rw (e, f) (names_same nilterm headers filename path text k h)
          ]
        ]
    names_same nilterm panicked filename path text k h = tt
    names_same nilterm unfinished filename path text k h = tt

    -- On a platform on which `/` separates directories, where a new `PathBuf` is empty and its
    -- `push` puts an absolute path in the place of the current one and joins a relative one to it
    -- with a `/`, unless there is one at its end: for every header, `parse_pathname_to_str` returns
    -- the bytes of the path of `parse_pathname`, and panics if that does.
    pub parse_pathname_to_str-eq-pathname :
        (h : LhaHeader)
        → parse_pathname_to_str is_separator h
          ≡ map paths.as_bytes (pathname is_separator paths.push paths.new h)
    unfolding parse_pathname_to_str pathname
    parse_pathname_to_str-eq-pathname h =
        by_names (name_headers is_separator paths.push (is_amiga h) (extras h) [] paths.new)
          (name_headers is_separator push_str (is_amiga h) (extras h) [] [])
          (names_same (is_amiga h) (extras h) [] paths.new [] tt (unix.as_bytes-new, refl))
      where
        raw : List ℕ
        raw = if is_amiga h then (split_data_at_nil_or_end h.filename).0 else h.filename

        by_names :
            (o : Option (List ℕ × paths.State)) (p : Option (List ℕ × List ℕ))
            → SameNames o p
            → (elim p as (λ x. Option (List ℕ)) [
              | none ↦ none
              | some ([], path) ↦ some (push_pathname is_separator push_str raw path)
              | some (c ∷ cs, path) ↦ some (push_str path (c ∷ cs))
            ])
              ≡ map paths.as_bytes (elim o as (λ x. Option paths.State) [
                | none ↦ none
                | some ([], path) ↦ some (push_pathname is_separator paths.push raw path)
                | some (c ∷ cs, path) ↦ some (paths.push path (c ∷ cs))
              ])
        by_names none none s = refl
        by_names none (some y) s = absurd s
        by_names (some x) none s = absurd s
        by_names (some ([], path)) (some ([], text)) (e, k, s) =
            ap some (sym (pathname_pushed raw path text s).0)
        by_names (some ([], path)) (some (d ∷ ds, text)) (e, k, s) = cc e
        by_names (some (c ∷ cs, path)) (some ([], text)) (e, k, s) = cc e
        by_names (some (c ∷ cs, path)) (some (d ∷ ds, text)) (e, k, s) = ap some (
            ap (λ (t : List ℕ). push_str text t) (sym e)
            ∙ sym (pushed path text (c ∷ cs) s (omega arith, k)).0)
