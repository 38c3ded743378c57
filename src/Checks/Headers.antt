-- ===== src/Checks/Headers.antt =====
-- Inputs on which the theorems about src/header.rs and src/header/ are applied.
use rust_delharc.Prelude.{
  ◌==◌, Bool, ℕ, ◌+◌, ◌-◌, ◌*◌, ◌≤◌, ◌<◌, ◌≡◌, refl, false, true, none, some, List, [], ◌∷◌, All,
  length, arith,
}
use mathlib.Core.Option.{map}
use rust_delharc.Outcome.{Ends}
use rust_delharc.StubIo.{slice}
use rust_delharc.StubIo.Laws.{AreBytes, slice-IsReader}
use rust_delharc.Header.Types.{LhaHeader, default_header}
use rust_delharc.Header.Parser
use rust_delharc.Header.Parser.Total.{HasExtrasIfAny, read-Ends}
use rust_delharc.Header.Parser.Extra.{next, iter_extra}
use rust_delharc.Header.Extras.{extras}
use rust_delharc.Header.Extras.Chain.{yielded, extras-Chain}
use rust_delharc.Header.Names.{
  is_separator_no_std, escape, parse_str_nilterm, push_pathname, pathname, parse_pathname_to_str,
}
use rust_delharc.Header.Names.Printable.{
  AreSlashes, IsClean, parse_str_nilterm-eq-escape, parse_str_nilterm-IsClean,
  length-parse_str_nilterm,
}
use rust_delharc.Header.Names.Components.{push_component, IsComponent, push_pathname-IsComponent}
use rust_delharc.Header.Names.Unix.{PathBuf, IsUnix, push_path, parse_pathname_to_str-eq-pathname}
use rust_delharc.Header.Timestamp.{
  Chrono, single, pos, epoch, utc, is_naive, parse_msdos_datetime, parse_win_filetime,
  parse_last_modified,
}
use rust_delharc.Header.Timestamp.Fields.{
  msdos_time, parse_msdos_datetime-fields, parse_win_filetime-exact, parse_win_filetime-overflow,
  parse_last_modified-aware,
}

-- A header of level 2 with one extra header, the name `ab`.
abbrev level_two : List ℕ
level_two =
    31 ∷ 0 ∷ 45 ∷ 108 ∷ 104 ∷ 48 ∷ 45 ∷ 2 ∷ 0 ∷ 0 ∷ 0 ∷ 2 ∷ 0 ∷ 0 ∷ 0 ∷ 0 ∷ 0 ∷ 0 ∷ 0 ∷ 32 ∷ 2 ∷ 0
    ∷ 0 ∷ 85 ∷ 5 ∷ 0 ∷ 1 ∷ 97 ∷ 98 ∷ 0 ∷ 0 ∷ []

level_two-bytes : AreBytes level_two
level_two-bytes = (
  omega arith,
  (
    omega arith,
    (
      omega arith,
      (
        omega arith,
        (
          omega arith,
          (
            omega arith,
            (
              omega arith,
              (
                omega arith,
                (
                  omega arith,
                  (
                    omega arith,
                    (
                      omega arith,
                      (
                        omega arith,
                        (
                          omega arith,
                          (
                            omega arith,
                            (
                              omega arith,
                              (
                                omega arith,
                                (
                                  omega arith,
                                  (
                                    omega arith,
                                    (
                                      omega arith,
                                      (
                                        omega arith,
                                        (
                                          omega arith,
                                          (
                                            omega arith,
                                            (
                                              omega arith,
                                              (
                                                omega arith,
                                                (
                                                  omega arith,
                                                  (
                                                    omega arith,
                                                    (
                                                      omega arith,
                                                      (
                                                        omega arith,
                                                        (
                                                          omega arith,
                                                          (omega arith, (omega arith, tt)),
                                                        ),
                                                      ),
                                                    ),
                                                  ),
                                                ),
                                              ),
                                            ),
                                          ),
                                        ),
                                      ),
                                    ),
                                  ),
                                ),
                              ),
                            ),
                          ),
                        ),
                      ),
                    ),
                  ),
                ),
              ),
            ),
          ),
        ),
      ),
    ),
  ),
)

read-Ends_example :
    Ends (λ h r. AreBytes r × HasExtrasIfAny h) AreBytes (Parser.read slice level_two)
read-Ends_example = read-Ends slice slice-IsReader level_two level_two-bytes

abbrev named : LhaHeader
named = record default_header {
  level = 2;
  first_header_len = 5;
  extra_headers = 1 ∷ b'a' ∷ b'b' ∷ 0 ∷ 0 ∷ [];
}

abbrev name_header : List ℕ
name_header = 1 ∷ b'a' ∷ b'b' ∷ 0 ∷ 0 ∷ []

extras-Chain_example : extras named ≡ yielded 2 (name_header ∷ [])
extras-Chain_example =
    extras-Chain named (name_header ∷ []) (refl, omega arith, ([], refl, (refl, refl)))

-- The path `../a?b`, whose last name has a byte that is not ASCII.
abbrev path_bytes : List ℕ
path_bytes = b'.' ∷ b'.' ∷ b'/' ∷ b'a' ∷ 0x80 ∷ b'b' ∷ []

path_bytes-bytes : All (λ b. b < 256) path_bytes
path_bytes-bytes =
    (omega arith, (omega arith, (omega arith, (omega arith, (omega arith, (omega arith, tt))))))

no_std-AreSlashes : AreSlashes is_separator_no_std
unfolding is_separator_no_std
no_std-AreSlashes c h = ground arith

parse_str_nilterm-eq-escape_example :
    parse_str_nilterm is_separator_no_std path_bytes true false
    ≡ escape is_separator_no_std true false path_bytes
parse_str_nilterm-eq-escape_example =
    parse_str_nilterm-eq-escape is_separator_no_std true false path_bytes

parse_str_nilterm-IsClean_example :
    All
      (IsClean is_separator_no_std false)
      (parse_str_nilterm is_separator_no_std path_bytes true false)
parse_str_nilterm-IsClean_example =
    parse_str_nilterm-IsClean is_separator_no_std no_std-AreSlashes true false path_bytes
      path_bytes-bytes

bytes-IsClean : All (IsClean is_separator_no_std false) (b'a' ∷ b'b' ∷ [])
unfolding is_separator_no_std
bytes-IsClean = ((omega arith, omega arith, refl), ((omega arith, omega arith, refl), tt))

length-parse_str_nilterm_example :
    length (parse_str_nilterm is_separator_no_std path_bytes true false) ≤ 18
length-parse_str_nilterm_example =
    length-parse_str_nilterm is_separator_no_std true false path_bytes

push_pathname-IsComponent_example :
    All
      (IsComponent is_separator_no_std)
      (push_pathname is_separator_no_std push_component path_bytes [])
push_pathname-IsComponent_example =
    push_pathname-IsComponent is_separator_no_std no_std-AreSlashes path_bytes [] path_bytes-bytes
      tt

abbrev unix_separator : ℕ → Bool
unix_separator c = c == b'/'

-- A `PathBuf` that is its bytes.
abbrev unix_paths : PathBuf
unix_paths = record {
  State = List ℕ;
  new = [];
  push = push_path;
  as_bytes = λ (path : List ℕ). path;
}

unix_paths-IsUnix : IsUnix unix_paths
unix_paths-IsUnix = record { as_bytes-new = refl; as_bytes-push = λ p name. refl }

parse_pathname_to_str-eq-pathname_example :
    parse_pathname_to_str unix_separator named
    ≡ map (λ (path : List ℕ). path) (pathname unix_separator push_path [] named)
parse_pathname_to_str-eq-pathname_example =
    parse_pathname_to_str-eq-pathname unix_separator refl unix_paths unix_paths-IsUnix named

-- A calendar that takes everything.
abbrev chrono : Chrono
chrono = record {
  NaiveDate = ℕ;
  NaiveDateTime = ℕ;
  UtcTime = ℕ;
  LocalTime = ℕ;
  from_ymd_opt = λ (y : ℕ) (m : ℕ) (d : ℕ). some (y * 10000 + m * 100 + d);
  and_hms_opt = λ (d : ℕ) (h : ℕ) (m : ℕ) (s : ℕ). some (d * 1000000 + h * 10000 + m * 100 + s);
  timestamp_opt = λ secs nanos. single nanos;
  naive_utc = λ (t : ℕ). t;
  naive_local = λ (t : ℕ). t;
  from_naive_utc = λ (t : ℕ). t;
  from_local_datetime = λ (t : ℕ). single t;
  with_local_timezone = λ (t : ℕ). t;
}

parse_msdos_datetime-fields_example :
    parse_msdos_datetime chrono (msdos_time 40 2 29 23 59 29) ≡ some 20200229235958
parse_msdos_datetime-fields_example =
    parse_msdos_datetime-fields chrono 40 2 29 23 59 29 (omega arith) (omega arith) (omega arith)
      (omega arith) (omega arith) (omega arith)

parse_win_filetime-exact_example :
    (secs : ℕ) × (nanos : ℕ) × (parse_win_filetime chrono 132000000000000001
      ≡ some (chrono.timestamp_opt (pos secs) nanos))
    × (nanos < 1000000000)
    × (secs * 1000000000 + nanos ≡ (132000000000000001 - epoch) * 100)
parse_win_filetime-exact_example =
    parse_win_filetime-exact chrono 132000000000000001 (omega arith) (omega arith)

parse_win_filetime-overflow_example : parse_win_filetime chrono 116444735999999999 ≡ none
parse_win_filetime-overflow_example =
    parse_win_filetime-overflow chrono 116444735999999999 (omega arith) (λ e. omega arith)

named-time : parse_last_modified chrono named ≡ some (utc 0)
unfolding parse_last_modified extras next iter_extra
named-time = refl

parse_last_modified-aware_example : is_naive chrono (utc 0) ≡ false
parse_last_modified-aware_example =
    parse_last_modified-aware chrono named (utc 0) (omega arith) named-time
