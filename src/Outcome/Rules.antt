-- ===== src/Outcome/Rules.antt =====
-- How what is known of a call's outcome follows from its parts: chains, tests, calls on a part of the
-- state, and weaker statements.
use rust_delharc.Prelude.{Bool, true, false, ◌≡◌, refl, if◌then◌else◌}
use rust_delharc.Outcome.{
  Outcome, ok, err, panic, out_of_fuel, Prog, ◌>>=◌, ◌>>◌, fail_if, assert, within, map_err, Post,
  Yields, Ends,
}

module _ {E S : Type 0} where
  pub Post-bind :
      {A B : Type 0} (P : A → S → Type 0) (Q : B → S → Type 0) (J K : S → Type 0) (m : Prog E S A)
      (f : A → Prog E S B) (s : S)
      → Post P J (m s)
      → ((t : S) → J t → K t)
      → ((a : A) (t : S) → P a t → Post Q K (f a t))
      → Post Q K ((m >>= f) s)
  Post-bind {A} {B} P Q J K m f s h raise k = by_case (m s) h
    where
      by_case :
          (o : Outcome E S A)
          → Post P J o
          → Post Q K (elim o as (λ x. Outcome E S B) [
            | ok a t ↦ f a t
            | err e t ↦ err e t
            | panic ↦ panic
            | out_of_fuel ↦ out_of_fuel
          ])
      by_case (ok a t) p = k a t p
      by_case (err e t) j = raise t j
      by_case panic p = p
      by_case out_of_fuel p = p

  pub Post-mono :
      {A : Type 0} (P Q : A → S → Type 0) (J K : S → Type 0) (o : Outcome E S A)
      → Post P J o
      → ((t : S) → J t → K t)
      → ((a : A) (t : S) → P a t → Q a t)
      → Post Q K o
  Post-mono P Q J K (ok a t) p raise k = k a t p
  Post-mono P Q J K (err e t) j raise k = raise t j
  Post-mono P Q J K panic p raise k = p
  Post-mono P Q J K out_of_fuel p raise k = p

pub Post-within :
    {E S T A : Type 0} (P : A → T → Type 0) (Q : A → S → Type 0) (J : T → Type 0) (K : S → Type 0)
    (part : S → T) (put_back : S → T → S) (m : Prog E T A) (s : S)
    → Post P J (m (part s))
    → ((t : T) → J t → K (put_back s t))
    → ((a : A) (t : T) → P a t → Q a (put_back s t))
    → Post Q K (within part put_back m s)
Post-within {E} {S} {T} {A} P Q J K part put_back m s h raise k = by_case (m (part s)) h
  where
    by_case :
        (o : Outcome E T A)
        → Post P J o
        → Post Q K (elim o as (λ x. Outcome E S A) [
          | ok a t ↦ ok a (put_back s t)
          | err e t ↦ err e (put_back s t)
          | panic ↦ panic
          | out_of_fuel ↦ out_of_fuel
        ])
    by_case (ok a t) p = k a t p
    by_case (err e t) j = raise t j
    by_case panic p = p
    by_case out_of_fuel p = p

pub Post-map_err :
    {E F S A : Type 0} (P : A → S → Type 0) (J : S → Type 0) (f : E → F) (m : Prog E S A) (s : S)
    → Post P J (m s)
    → Post P J (map_err f m s)
Post-map_err {E} {F} {S} {A} P J f m s h = by_case (m s) h
  where
    by_case :
        (o : Outcome E S A)
        → Post P J o
        → Post P J (elim o as (λ x. Outcome F S A) [
          | ok a t ↦ ok a t
          | err e t ↦ err (f e) t
          | panic ↦ panic
          | out_of_fuel ↦ out_of_fuel
        ])
    by_case (ok a t) p = p
    by_case (err e t) j = j
    by_case panic p = p
    by_case out_of_fuel p = p

module _ {E S : Type 0} where
  pub Yields-bind :
      {A B : Type 0} (P : A → S → Type 0) (Q : B → S → Type 0) (m : Prog E S A) (f : A → Prog E S B)
      (s : S)
      → Yields P (m s)
      → ((a : A) (t : S) → P a t → Yields Q (f a t))
      → Yields Q ((m >>= f) s)
  Yields-bind P Q m f s h k = Post-bind P Q (λ s. Unit) (λ s. Unit) m f s h (λ t j. tt) k

  pub Yields-mono :
      {A : Type 0} (P Q : A → S → Type 0) (o : Outcome E S A)
      → Yields P o
      → ((a : A) (t : S) → P a t → Q a t)
      → Yields Q o
  Yields-mono P Q o h k = Post-mono P Q (λ s. Unit) (λ s. Unit) o h (λ t j. tt) k

  pub Yields-fail_if :
      {B : Type 0} (Q : B → S → Type 0) (c : Bool) (e : E) (m : Prog E S B) (s : S)
      → (c ≡ false → Yields Q (m s))
      → Yields Q ((fail_if c e >> m) s)
  Yields-fail_if Q true e m s k = tt
  Yields-fail_if Q false e m s k = k refl

  pub Yields-assert :
      {B : Type 0} (Q : B → S → Type 0) (c : Bool) (m : Prog E S B) (s : S)
      → c ≡ true
      → Yields Q (m s)
      → Yields Q ((assert c >> m) s)
  Yields-assert Q c m s h k = rw h k

  pub Yields-if :
      {B : Type 0} (Q : B → S → Type 0) (c : Bool) (m n : Prog E S B) (s : S)
      → (c ≡ true → Yields Q (m s))
      → (c ≡ false → Yields Q (n s))
      → Yields Q ((if c then m else n) s)
  Yields-if Q true m n s h k = h refl
  Yields-if Q false m n s h k = k refl

  pub Yields-elim :
      {B : Type 0} (Q : B → S → Type 0) (c : Bool) (m n : Prog E S B) (s : S)
      → (c ≡ true → Yields Q (m s))
      → (c ≡ false → Yields Q (n s))
      → Yields Q ((elim c as (λ x. Prog E S B) [ true ↦ m | false ↦ n ]) s)
  Yields-elim Q true m n s h k = h refl
  Yields-elim Q false m n s h k = k refl

module _ {E S : Type 0} where
  pub Ends-bind :
      {A B : Type 0} (P : A → S → Type 0) (Q : B → S → Type 0) (J : S → Type 0) (m : Prog E S A)
      (f : A → Prog E S B) (s : S)
      → Ends P J (m s)
      → ((a : A) (t : S) → P a t → Ends Q J (f a t))
      → Ends Q J ((m >>= f) s)
  Ends-bind {A} {B} P Q J m f s h k = by_case (m s) h
    where
      by_case :
          (o : Outcome E S A)
          → Ends P J o
          → Ends Q J (elim o as (λ x. Outcome E S B) [
            | ok a t ↦ f a t
            | err e t ↦ err e t
            | panic ↦ panic
            | out_of_fuel ↦ out_of_fuel
          ])
      by_case (ok a t) p = k a t p
      by_case (err e t) j = j
      by_case panic p = p
      by_case out_of_fuel p = p

  pub Ends-mono :
      {A : Type 0} (P Q : A → S → Type 0) (J K : S → Type 0) (o : Outcome E S A)
      → Ends P J o
      → ((s : S) → J s → K s)
      → ((a : A) (s : S) → P a s → Q a s)
      → Ends Q K o
  Ends-mono P Q J K (ok a s) h raise k = k a s h
  Ends-mono P Q J K (err e s) h raise k = raise s h
  Ends-mono P Q J K panic h raise k = tt
  Ends-mono P Q J K out_of_fuel h raise k = h

  pub Post-Ends :
      {A : Type 0} (P : A → S → Type 0) (J : S → Type 0) (o : Outcome E S A)
      → Post P J o
      → Ends P J o
  Post-Ends P J (ok a s) h = h
  Post-Ends P J (err e s) h = h
  Post-Ends P J panic h = tt
  Post-Ends P J out_of_fuel h = h

  pub Ends-fail_if :
      {B : Type 0} (Q : B → S → Type 0) (J : S → Type 0) (c : Bool) (e : E) (m : Prog E S B) (s : S)
      → J s
      → (c ≡ false → Ends Q J (m s))
      → Ends Q J ((fail_if c e >> m) s)
  Ends-fail_if Q J true e m s j k = j
  Ends-fail_if Q J false e m s j k = k refl

  pub Ends-if :
      {B : Type 0} (Q : B → S → Type 0) (J : S → Type 0) (c : Bool) (m n : Prog E S B) (s : S)
      → (c ≡ true → Ends Q J (m s))
      → (c ≡ false → Ends Q J (n s))
      → Ends Q J ((if c then m else n) s)
  Ends-if Q J true m n s h k = h refl
  Ends-if Q J false m n s h k = k refl
