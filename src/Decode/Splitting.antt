-- ===== src/Decode/Splitting.antt =====
-- src/decode/: filling one buffer against filling two, one after the other, for a decoder whose
-- unfinished copy is resumed by the next call.
use rust_delharc.Prelude.{
  ℕ, zero, suc, ◌+◌, ◌-◌, ◌≤◌, ◌<◌, ◌≡◌, refl, sym, ap, ◌∙◌, false, inl, inr, Bool-cases, List, [],
  ◌++◌, length, length-append, append_assoc, append_nil, ltb, ltb→lt, ltb-false→≤, ◌==◌, arith,
}
use rust_delharc.Outcome.{Outcome, ok, err, panic, out_of_fuel, Prog, ◌>>=◌, Yields}
use rust_delharc.Decode.Target.{while_target}
use rust_delharc.Decode.Filling.{Fits}

module _ {E S : Type 0} where
  -- The rest of a call that writes bytes, and these bytes behind others.
  abbrev pub onwards :
      Outcome E S (List ℕ) → (List ℕ → S → Outcome E S (List ℕ)) → Outcome E S (List ℕ)
  onwards o f = elim o [
    | ok x t ↦ f x t
    | err e t ↦ err e t
    | panic ↦ panic
    | out_of_fuel ↦ out_of_fuel
  ]

  abbrev pub behind : List ℕ → Outcome E S (List ℕ) → Outcome E S (List ℕ)
  behind x o = elim o [
    | ok y t ↦ ok (x ++ y) t
    | err e t ↦ err e t
    | panic ↦ panic
    | out_of_fuel ↦ out_of_fuel
  ]

  onwards-onwards :
      (o : Outcome E S (List ℕ)) (f g : List ℕ → S → Outcome E S (List ℕ))
      → onwards (onwards o f) g ≡ onwards o (λ x t. onwards (f x t) g)
  onwards-onwards (ok x t) f g = refl
  onwards-onwards (err e t) f g = refl
  onwards-onwards panic f g = refl
  onwards-onwards out_of_fuel f g = refl

  onwards-behind :
      (x : List ℕ) (o : Outcome E S (List ℕ)) (g : List ℕ → S → Outcome E S (List ℕ))
      → onwards (behind x o) g ≡ onwards o (λ y t. g (x ++ y) t)
  onwards-behind x (ok y t) g = refl
  onwards-behind x (err e t) g = refl
  onwards-behind x panic g = refl
  onwards-behind x out_of_fuel g = refl

  behind-onwards :
      (x : List ℕ) (o : Outcome E S (List ℕ)) (g : List ℕ → S → Outcome E S (List ℕ))
      → behind x (onwards o g) ≡ onwards o (λ y t. behind x (g y t))
  behind-onwards x (ok y t) g = refl
  behind-onwards x (err e t) g = refl
  behind-onwards x panic g = refl
  behind-onwards x out_of_fuel g = refl

  behind-behind :
      (x y : List ℕ) (o : Outcome E S (List ℕ)) → behind x (behind y o) ≡ behind (x ++ y) o
  behind-behind x y (ok z t) = ap (λ (w : List ℕ). ok w t) (sym (append_assoc x y z))
  behind-behind x y (err e t) = refl
  behind-behind x y panic = refl
  behind-behind x y out_of_fuel = refl

  behind_nil : (o : Outcome E S (List ℕ)) → behind [] o ≡ o
  behind_nil (ok y t) = refl
  behind_nil (err e t) = refl
  behind_nil panic = refl
  behind_nil out_of_fuel = refl

  onwards-cong :
      (o : Outcome E S (List ℕ)) (f g : List ℕ → S → Outcome E S (List ℕ))
      → ((x : List ℕ) (t : S) → f x t ≡ g x t)
      → onwards o f ≡ onwards o g
  onwards-cong (ok x t) f g h = h x t
  onwards-cong (err e t) f g h = refl
  onwards-cong panic f g h = refl
  onwards-cong out_of_fuel f g h = refl

  onwards-ext :
      (P : List ℕ → S → Type 0) (o : Outcome E S (List ℕ)) (f g : List ℕ → S → Outcome E S (List ℕ))
      → Yields P o
      → ((x : List ℕ) (t : S) → P x t → f x t ≡ g x t)
      → onwards o f ≡ onwards o g
  onwards-ext P (ok x t) f g p h = h x t p
  onwards-ext P (err e t) f g p h = refl
  onwards-ext P panic f g p h = refl
  onwards-ext P out_of_fuel f g p h = refl

-- A call in front does not matter.
pub bind-onwards :
    {E S A : Type 0} (P : A → S → Type 0) (m : Prog E S A) (f g : A → Prog E S (List ℕ))
    (k : List ℕ → S → Outcome E S (List ℕ)) (s : S)
    → Yields P (m s)
    → ((a : A) (t : S) → P a t → f a t ≡ onwards (g a t) k)
    → (m >>= f) s ≡ onwards ((m >>= g) s) k
bind-onwards {E} {S} {A} P m f g k s h step = by_case (m s) h
  where
    by_case :
        (o : Outcome E S A)
        → Yields P o
        → elim o as (λ x. Outcome E S (List ℕ)) [
          | ok a t ↦ f a t
          | err e t ↦ err e t
          | panic ↦ panic
          | out_of_fuel ↦ out_of_fuel
        ]
          ≡ onwards
              (elim o as (λ x. Outcome E S (List ℕ)) [
                | ok a t ↦ g a t
                | err e t ↦ err e t
                | panic ↦ panic
                | out_of_fuel ↦ out_of_fuel
              ])
              k
    by_case (ok a t) p = step a t p
    by_case (err e t) p = refl
    by_case panic p = refl
    by_case out_of_fuel p = refl

module _ {E S : Type 0} (resume step : ℕ → Prog E S (List ℕ)) where
  -- What the `fill_buffer` methods do with these.
  abbrev pub fill : ℕ → Prog E S (List ℕ)
  fill n s = onwards (resume n s) (λ x t. behind x (while_target step n (n - length x) t))

  -- The laws of a decoder with the invariant `I`, of which `Idle` says that no copy is unfinished: a
  -- call with room for `n` bytes leaves a copy unfinished only if it writes as many, and to resume
  -- it with more room is to go on where the last call ended.
  pub record Resumes (I Idle : S → Type 0) : Type 0 where
    pub resumed :
        (n : ℕ) (s : S)
        → I s
        → Yields (λ x t. (length x ≤ n) × I t × (length x < n → Idle t)) (resume n s)
    pub stepped :
        (n : ℕ) (s : S)
        → 0 < n
        → I s
        → Idle s
        → Yields (λ x t. Fits n x × I t × (length x < n → Idle t)) (step n s)
    pub idle : (n : ℕ) (s : S) → Idle s → resume n s ≡ ok [] s
    pub resume_split :
        (m n : ℕ) (s : S)
        → I s
        → resume (m + n) s ≡ onwards (resume m s) (λ x t. behind x (resume n t))
    pub step_split :
        (m n : ℕ) (s : S)
        → 0 < m
        → I s
        → Idle s
        → step (m + n) s ≡ onwards (step m s) (λ x t. behind x (resume n t))

  loop_ended : (fuel : ℕ) (s : S) → while_target step fuel 0 s ≡ ok [] s
  unfolding while_target
  loop_ended zero s = refl
  loop_ended (suc fuel) s = refl

  loop_goes :
      (fuel left : ℕ) (s : S)
      → 0 < left
      → while_target step (suc fuel) left s
        ≡ onwards (step left s) (λ x t. behind x (while_target step fuel (left - length x) t))
  unfolding while_target
  loop_goes fuel left s h =
      let more : (left == 0) ≡ false = ground arith in rw (more, while_target) refl

  module _ (I Idle : S → Type 0) (laws : Resumes I Idle) where
    -- A loop with something left to write begins with no copy unfinished.
    abbrev Ready : ℕ → S → Type 0
    Ready left s = I s × (0 < left → Idle s)

    any_fuel :
        (f g left : ℕ) (s : S)
        → left ≤ f
        → left ≤ g
        → Ready left s
        → while_target step f left s ≡ while_target step g left s
    any_fuel f g zero s h k r = loop_ended f s ∙ sym (loop_ended g s)
    any_fuel zero g (suc left) s h k r = absurd (omega arith)
    any_fuel (suc f) zero (suc left) s h k r = absurd (omega arith)
    any_fuel (suc f) (suc g) (suc left) s h k (i, idle) =
        loop_goes f (suc left) s (omega arith)
        ∙ onwards-ext (λ x t. Fits (suc left) x × I t × (length x < suc left → Idle t))
            (step (suc left) s) _ _ (laws.stepped (suc left) s (omega arith) i (idle (omega arith)))
            (λ x t (fits, j, none_left). ap (behind x) (
              any_fuel f g (suc left - length x) t (let some_written = fits.0 in omega arith)
                (let some_written = fits.0 in omega arith) (j, λ more. none_left (omega arith))))
        ∙ sym (loop_goes g (suc left) s (omega arith))

    -- What follows a call with room for `m + n` bytes that wrote `x` in one with room for `m`.
    module _ (m n f g : ℕ)
        (rest : (k : ℕ) (t : S)
          → k + n ≤ f
          → k ≤ g
          → I t
          → Idle t
          → while_target step f (k + n) t
            ≡ onwards (while_target step g k t) (λ x u. behind x (fill n u))) where
      after :
          (x : List ℕ) (t : S)
          → length x ≤ m
          → m + n ≤ f + length x
          → m ≤ g + length x
          → I t
          → (length x < m → Idle t)
          → onwards
              (resume n t)
              (λ y u. behind (x ++ y) (while_target step f (m + n - length (x ++ y)) u))
            ≡ onwards (while_target step g (m - length x) t) (λ y u. behind (x ++ y) (fill n u))
      after x t fits many many' i idle = elim (Bool-cases (ltb (length x) m)) [
        | inl part ↦
            let now = idle (ltb→lt _ _ part) in
            let e : m + n - length x ≡ m - length x + n = omega arith in
            rw (laws.idle n t now, append_nil x, e)
              (ap (behind x) (rest (m - length x) t (omega arith) (omega arith) i now)
                ∙ behind-onwards x (while_target step g (m - length x) t) _
                ∙ onwards-cong (while_target step g (m - length x) t) _ _
                    (λ y u. behind-behind x y (fill n u)))
        | inr full ↦
            let m_le = ltb-false→≤ _ _ full in
            let e : m - length x ≡ 0 = omega arith in
            rw (e, loop_ended g t, append_nil x)
              (onwards-ext (λ y u. (length y ≤ n) × I u × (length y < n → Idle u)) (resume n t) _ _
                  (laws.resumed n t i)
                  (λ y u (few, j, none_left).
                    let e' : m + n - length (x ++ y) ≡ n - length y =
                      omega (arith, length-append x y) in
                    rw e' (
                      ap (behind (x ++ y)) (
                        any_fuel f n (n - length y) u (omega arith) (omega arith)
                          (j, λ more. none_left (omega arith)))
                      ∙ sym (behind-behind x y _)))
                ∙ sym (behind-onwards x (resume n t) _))
      ]

    -- The two calls that `after` compares, from their starts.
    joined :
        (m n f g : ℕ) (P : List ℕ → S → Type 0)
        → ((k : ℕ) (t : S)
            → k + n ≤ f
            → k ≤ g
            → I t
            → Idle t
            → while_target step f (k + n) t
              ≡ onwards (while_target step g k t) (λ x u. behind x (fill n u)))
        → (o : Outcome E S (List ℕ)) → Yields P o
        → ((x : List ℕ) (t : S)
            → P x t
            → (length x ≤ m)
              × (m + n ≤ f + length x)
              × (m ≤ g + length x)
              × I t
              × (length x < m → Idle t))
        → onwards
            (onwards o (λ x t. behind x (resume n t)))
            (λ x t. behind x (while_target step f (m + n - length x) t))
          ≡ onwards
              (onwards o (λ x t. behind x (while_target step g (m - length x) t)))
              (λ x t. behind x (fill n t))
    joined m n f g P rest o p facts =
        onwards-onwards o _ _
        ∙ onwards-ext P o _ _ p (λ x t q.
          let (fits, many, many', i, idle) = facts x t q in
          onwards-behind x (resume n t) _
          ∙ after m n f g rest x t fits many many' i idle
          ∙ sym (onwards-behind x (while_target step g (m - length x) t) _))
        ∙ sym (onwards-onwards o _ _)

    loop_split :
        (f g m n : ℕ) (s : S)
        → m + n ≤ f
        → m ≤ g
        → I s
        → Idle s
        → while_target step f (m + n) s
          ≡ onwards (while_target step g m s) (λ x u. behind x (fill n u))
    loop_split f g zero n s h k i idle =
        let e : 0 + n ≡ n = omega arith in
        let e' : n - 0 ≡ n = omega arith in
        rw (e, loop_ended g s, laws.idle n s idle, e')
          (any_fuel f n n s (omega arith) (omega arith) (i, λ more. idle)
            ∙ sym (
                behind_nil (behind [] (while_target step n n s))
                ∙ behind_nil (while_target step n n s)))
    loop_split zero g (suc m) n s h k i idle = absurd (omega arith)
    loop_split (suc f) zero (suc m) n s h k i idle = absurd (omega arith)
    loop_split (suc f) (suc g) (suc m) n s h k i idle =
        loop_goes f (suc m + n) s (omega arith)
        ∙ ap
            (λ (o : Outcome E S (List ℕ)).
              onwards o (λ x t. behind x (while_target step f (suc m + n - length x) t)))
            (laws.step_split (suc m) n s (omega arith) i idle)
        ∙ joined (suc m) n f g (λ x t. Fits (suc m) x × I t × (length x < suc m → Idle t))
            (λ j t. loop_split f g j n t) (step (suc m) s)
            (laws.stepped (suc m) s (omega arith) i idle)
            (λ x t (fits, j, none_left).
              let a = fits.0 in let b = fits.1 in (b, omega arith, omega arith, j, none_left))
        ∙ ap (λ (o : Outcome E S (List ℕ)). onwards o (λ x t. behind x (fill n t)))
            (sym (loop_goes g (suc m) s (omega arith)))

    -- To fill a buffer of `m + n` bytes is to fill one of `m` bytes and then one of `n`.
    pub fill_split :
        (m n : ℕ) (s : S) → I s → fill (m + n) s ≡ onwards (fill m s) (λ x t. behind x (fill n t))
    fill_split m n s i =
        ap
          (λ (o : Outcome E S (List ℕ)).
            onwards o (λ x t. behind x (while_target step (m + n) (m + n - length x) t)))
          (laws.resume_split m n s i)
        ∙ joined m n (m + n) m (λ x t. (length x ≤ m) × I t × (length x < m → Idle t))
            (λ j t. loop_split (m + n) m j n t) (resume m s) (laws.resumed m s i)
            (λ x t (fits, j, none_left). (fits, omega arith, omega arith, j, none_left))
