-- ===== src/Header/Extras/Chain.antt =====
-- src/header/parser.rs: `ExtraHeaderIter` over extra headers that stand one after the other.
use rust_delharc.Prelude.{
  ℕ, zero, suc, ◌+◌, ◌-◌, ◌≤◌, ◌<◌, ◌≡◌, refl, ap, ◌∙◌, false, List, [], ◌∷◌, ◌++◌, length,
  length-append, take, drop, ltb, ltb-false, ◌==◌, arith,
}
use mathlib.Core.Path.{ap₂}
use rust_delharc.Header.Types.{LhaHeader}
use rust_delharc.Header.Parser.Extra.{
  ExtraHeaderIter, finished, header, iter_extra, next, next_len, counter_size, min_header_len,
}
use rust_delharc.Header.Parser.Examined.{Chain}
use rust_delharc.Header.Extras.{Iteration, done, item, iterate, extras}

-- The headers, without the lengths at their ends.
abbrev pub yielded : ℕ → List (List ℕ) → Iteration
yielded level [] = done
yielded level (h ∷ hs) = item (take (length h - counter_size level) h) (yielded level hs)

take-append : (h rest : List ℕ) → take (length h) (h ++ rest) ≡ h
take-append [] rest = refl
take-append (b ∷ h) rest = ap (◌∷◌ b) (take-append h rest)

drop-append : (h rest : List ℕ) → drop (length h) (h ++ rest) ≡ rest
drop-append [] rest = refl
drop-append (b ∷ h) rest = drop-append h rest

abbrev over : ℕ → ℕ → List ℕ → ExtraHeaderIter
over level len bytes = record { bytes = bytes; header_length = len; header_len32 = level == 3 }

counter-lt : (level : ℕ) → counter_size level < min_header_len level
counter-lt level = ground arith

next_header :
    (level : ℕ) (h rest : List ℕ)
    → min_header_len level ≤ length h
    → next (over level (length h) (h ++ rest))
      ≡ header (take (length h - counter_size level) h) (over level (next_len level h) rest)
unfolding next
next_header level h rest least =
    let some_left : (length h == 0) ≡ false = ground (arith, counter-lt level) in
    let inside : ltb (length (h ++ rest)) (length h) ≡ false =
      ltb-false _ _ (omega (arith, length-append h rest)) in
    let counted : ltb (length h) (counter_size level) ≡ false =
      ltb-false _ _ (omega (arith, counter-lt level)) in
    rw (some_left, inside, counted, take-append h rest, drop-append h rest) refl

next_end : (level : ℕ) (bytes : List ℕ) → next (over level 0 bytes) ≡ finished
unfolding next
next_end level bytes = refl

iterate-Chain :
    (level fuel : ℕ) (hs : List (List ℕ)) (len : ℕ) (bytes : List ℕ)
    → length bytes < fuel
    → Chain level hs len bytes
    → iterate fuel (over level len bytes) ≡ yielded level hs
unfolding iterate
iterate-Chain level zero hs len bytes m chain = absurd (omega arith)
iterate-Chain level (suc fuel) [] len bytes m (e, f) =
    ap (λ (n : ℕ). iterate (suc fuel) (over level n bytes)) e
    ∙ rw (next_end level bytes, iterate) refl
iterate-Chain level (suc fuel) (h ∷ hs) len bytes m (e, least, (rest, f, chain)) =
    let size = length-append h rest in
    let fewer : length rest < fuel =
      let whole = ap (λ (b : List ℕ). length b) f in omega (arith, counter-lt level) in
    ap₂ (λ (n : ℕ) (b : List ℕ). iterate (suc fuel) (over level n b)) e f
    ∙ rw (next_header level h rest least, iterate)
        (ap (item (take (length h - counter_size level) h))
          (iterate-Chain level fuel hs (next_len level h) rest fewer chain))

-- If the extra headers of a header stand one after the other, as those that the parser returns do,
-- then iterating over them comes to its end without a panic and yields each of them in turn,
-- without the length at its end.
pub extras-Chain :
    (h : LhaHeader) (hs : List (List ℕ))
    → Chain h.level hs h.first_header_len h.extra_headers
    → extras h ≡ yielded h.level hs
unfolding extras iter_extra
extras-Chain h hs chain =
    iterate-Chain h.level (length h.extra_headers + 1) hs h.first_header_len h.extra_headers
      (omega arith) chain
