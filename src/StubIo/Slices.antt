-- ===== src/StubIo/Slices.antt =====
-- src/stub_io.rs: the readers over bytes in memory. A slice is what is left of the bytes; `Take` on
-- it yields the bytes up to the limit and leaves the others.
use rust_delharc.Prelude.{
  ℕ, zero, suc, ◌+◌, ◌-◌, ◌≤◌, ◌<◌, ◌≡◌, refl, ap, ◌∙◌, inl, inr, Bool-cases, false, List, [], ◌∷◌,
  length, take, drop, min, ltb, ltb-false, ◌==◌, ==_iff, ==_zero-false, length-take, length-drop,
  drop-drop, arith,
}
use rust_delharc.Outcome.{ok}
use rust_delharc.StubIo.{slice, Take, take_reader}
use rust_delharc.StubIo.Trait.{default_read_exact}
use rust_delharc.StubIo.Slice
use rust_delharc.StubIo.Slice.{UnexpectedEofError, unexpected_eof_error}
use rust_delharc.StubIo.Limit
use rust_delharc.StubIo.Discard.{discard_loop, discard_to_end}

-- On a slice with enough bytes `read_exact` does what the default method of the trait does.
pub read_exact-default :
    (n : ℕ) (bytes : List ℕ)
    → n ≤ length bytes
    → Slice.read_exact n bytes ≡ default_read_exact unexpected_eof_error Slice.read_all n bytes
unfolding Slice.read_exact Slice.read_all default_read_exact
read_exact-default n bytes h =
    let same : length (take (min n (length bytes)) bytes) ≡ n =
      omega (arith, length-take (min n (length bytes)) bytes) in
    ground (arith, same)

-- `Take::read_all` on a slice reads as many bytes as the buffer, the limit and the slice allow,
-- takes them off the front of the slice and off the limit, and does not panic.
pub take_read_all :
    (n : ℕ) (t : Take slice)
    → let m = min n (min t.limit (length t.inner)) in
      Limit.read_all slice n t
      ≡ ok (take m t.inner) (record { limit = t.limit - m; inner = drop m t.inner })
unfolding Limit.read_all Slice.read_all
take_read_all n t =
    let m = min n (min t.limit (length t.inner)) in
    let m' : min (min n t.limit) (length t.inner) ≡ m = omega arith in
    let size : length (take m t.inner) ≡ m = omega (arith, length-take m t.inner) in
    let fits : ltb t.limit m ≡ false = ltb-false t.limit m (omega arith) in
    elim (Bool-cases (t.limit == 0)) [
      | inl empty ↦
          let none_left : m ≡ 0 = let zero_limit = (==_iff _ _).0 empty in omega arith in
          let limit_same : t.limit - 0 ≡ t.limit = omega arith in
          rw (empty, Limit.read_all, none_left, limit_same) refl
      | inr more ↦ rw (more, m', size, fits) refl
    ]

-- Nothing is read at the limit, or at the end of the bytes.
drop_none : {A : Type 0} (limit : ℕ) (xs : List A) → min limit (length xs) ≡ 0 → drop limit xs ≡ xs
drop_none zero xs h = refl
drop_none (suc limit) [] h = refl
drop_none (suc limit) (x ∷ xs) h = absurd (omega arith)

discard_loop-slice :
    (fuel buf : ℕ) (t : Take slice)
    → 0 < buf
    → t.limit < fuel
    → discard_loop (take_reader slice) fuel buf t
      ≡ ok tt (record { limit = t.limit - length t.inner; inner = drop t.limit t.inner })
unfolding discard_loop
discard_loop-slice zero buf t hb h = absurd (omega arith)
discard_loop-slice (suc fuel) buf t hb h =
    let m = min buf (min t.limit (length t.inner)) in
    let size : length (take m t.inner) ≡ m = omega (arith, length-take m t.inner) in
    let ih =
      discard_loop-slice fuel buf (record { limit = t.limit - m; inner = drop m t.inner }) hb in
    let rest : drop (t.limit - m) (drop m t.inner) ≡ drop t.limit t.inner =
      let whole : m + (t.limit - m) ≡ t.limit = omega arith in
      drop-drop (t.limit - m) m t.inner ∙ ap (λ k. drop k t.inner) whole in
    let left : t.limit - m - length (drop m t.inner) ≡ t.limit - length t.inner =
      omega (arith, length-drop m t.inner) in
    elim (Bool-cases (m == 0)) [
      | inl done ↦
          let none_left : m ≡ 0 = (==_iff _ _).0 done in
          let same : drop t.limit t.inner ≡ t.inner = drop_none t.limit t.inner (omega arith) in
          let kept : t.limit - 0 ≡ t.limit - length t.inner = omega arith in
          rw (take_read_all buf t, size, done, discard_loop, none_left, kept, same) refl
      | inr more ↦
          let some_read : 0 < m = ==_zero-false m more in
          rw (take_read_all buf t, size, more, discard_loop)
            (ih (omega arith) ∙ (rw (rest, left) refl))
    ]

-- With a buffer that is not empty, `discard_to_end` on a limited slice ends within a round for each
-- byte up to the limit and one more, and leaves exactly the bytes behind the limit.
pub discard_to_end-slice :
    (buf : ℕ) (t : Take slice)
    → 0 < buf
    → discard_to_end (take_reader slice) (t.limit + 1) buf t
      ≡ ok tt (record { limit = t.limit - length t.inner; inner = drop t.limit t.inner })
unfolding discard_to_end
discard_to_end-slice buf t hb =
    let e : (buf == 0) ≡ false = ground arith in
    rw e (discard_loop-slice (t.limit + 1) buf t hb (omega arith))
