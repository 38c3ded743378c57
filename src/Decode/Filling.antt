-- ===== src/Decode/Filling.antt =====
-- src/decode/: what the steps of a decoder that keeps an invariant make of its loop over a target.
use rust_delharc.Prelude.{
  ℕ, zero, suc, ◌-◌, ◌≤◌, ◌<◌, ◌≡◌, true, inl, inr, Bool-cases, List, length, length-append, ◌==◌,
  ==_iff, ==_zero-false, arith,
}
use rust_delharc.Outcome.{Prog, Post}
use rust_delharc.Outcome.Rules.{Post-bind}
use rust_delharc.Decode.Target.{while_target}

-- What a step writes: a byte or more, and no more than there is room for.
abbrev pub Fits : ℕ → List ℕ → Type 0
Fits left bytes = (0 < length bytes) × (length bytes ≤ left)

-- A filled target of `n` bytes, with a state that satisfies `I`.
abbrev pub Filled : {S : Type 0} → (S → Type 0) → ℕ → List ℕ → S → Type 0
Filled I n bytes s = (length bytes ≡ n) × I s

module _ {E S : Type 0} (I J : S → Type 0) (body : ℕ → Prog E S (List ℕ))
    (steps : (left : ℕ) (s : S)
      → 0 < left
      → I s
      → Post (λ bytes t. Fits left bytes × I t) J (body left s)) where
  -- The loop fills the target, and the length of the target is fuel enough.
  pub while_target-Post :
      (fuel left : ℕ) (s : S)
      → left ≤ fuel
      → I s
      → Post (Filled I left) J (while_target body fuel left s)
  unfolding while_target
  while_target-Post zero left s h i =
      let done : (left == 0) ≡ true = ground arith in rw (done, Post) (omega arith, i)
  while_target-Post (suc fuel) left s h i = elim (Bool-cases (left == 0)) [
    | inl done ↦ let none_left : left ≡ 0 = (==_iff _ _).0 done in rw (done, Post) (omega arith, i)
    | inr more ↦
        rw (more, Post)
          (Post-bind (λ bytes t. Fits left bytes × I t) (Filled I left) J J (body left) _ s
            (steps left s (==_zero-false left more) i) (λ t j. j)
            (λ bytes t (fits, j).
              Post-bind (Filled I (left - length bytes)) (Filled I left) J J
                (while_target body fuel (left - length bytes)) _ t
                (while_target-Post fuel (left - length bytes) t
                  (let some_written = fits.0 in omega arith) j)
                (λ t j. j)
                (λ rest u (e, k).
                  (let most = fits.1 in omega (arith, length-append bytes rest), k))))
  ]
