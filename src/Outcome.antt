-- ===== src/Outcome.antt =====
-- How a call ends, with the state that it leaves, and the state monad of the stateful code.
pub mod Rules
use rust_delharc.Prelude.{Bool, true, false, ◌≡◌, refl, if◌then◌else◌}

-- A returned value, a returned error (each with the state after the call), a panic, or a loop of
-- the model that has used up its fuel. A panic also stands for an unchecked access out of bounds,
-- which `debug_assert!` turns into a panic in debug builds and which is undefined otherwise.
pub data Outcome {ℓ κ μ} (E : Type ℓ) (S : Type κ) (A : Type μ) : Type (ℓ ⊔ κ ⊔ μ) where
  ok : A → S → Outcome E S A
  err : E → S → Outcome E S A
  panic out_of_fuel : Outcome E S A

abbrev pub Prog : Type 0 → Type 0 → Type 0 → Type 0
Prog E S A = S → Outcome E S A

infixl 5 ◌>>=◌ ◌>>◌
abbrev pub ◌>>=◌ : {E S A B : Type 0} → Prog E S A → (A → Prog E S B) → Prog E S B
◌>>=◌ m f s = elim (m s) [
  | ok a t ↦ f a t
  | err e t ↦ err e t
  | panic ↦ panic
  | out_of_fuel ↦ out_of_fuel
]

abbrev pub ◌>>◌ : {E S A B : Type 0} → Prog E S A → Prog E S B → Prog E S B
m >> k = m >>= λ _. k

module _ {E S : Type 0} where
  abbrev pub ret : {A : Type 0} → A → Prog E S A
  ret a s = ok a s

  abbrev pub fail : {A : Type 0} → E → Prog E S A
  fail e s = err e s

  abbrev pub crash : {A : Type 0} → Prog E S A
  crash s = panic

  abbrev pub get : Prog E S S
  get s = ok s s

  abbrev pub modify : (S → S) → Prog E S (Unit {0})
  modify f s = ok tt (f s)

  -- `if c { return Err(e) }`
  abbrev pub fail_if : Bool → E → Prog E S (Unit {0})
  fail_if true e s = err e s
  fail_if false e s = ok tt s

  -- `assert!`, and the checks of arithmetic that overflows.
  abbrev pub assert : Bool → Prog E S (Unit {0})
  assert true s = ok tt s
  assert false s = panic

-- A call on a part of the state, such as `self.bit_reader`.
abbrev pub within : {E S T A : Type 0} → (S → T) → (S → T → S) → Prog E T A → Prog E S A
within part put_back m s = elim (m (part s)) [
  | ok a t ↦ ok a (put_back s t)
  | err e t ↦ err e (put_back s t)
  | panic ↦ panic
  | out_of_fuel ↦ out_of_fuel
]

-- `.map_err(f)`
abbrev pub map_err : {E F S A : Type 0} → (E → F) → Prog E S A → Prog F S A
map_err f m s = elim (m s) [
  | ok a t ↦ ok a t
  | err e t ↦ err (f e) t
  | panic ↦ panic
  | out_of_fuel ↦ out_of_fuel
]

-- The state after a call satisfies `P`, whether it returned a value or an error.
abbrev pub Leaves {ℓ κ μ} :
    {E : Type ℓ} {S : Type κ} {A : Type μ} → (S → Type 0) → Outcome E S A → Type 0
Leaves P (ok a s) = P s
Leaves P (err e s) = P s
Leaves P panic = Unit
Leaves P out_of_fuel = Unit

-- The call returns normally, with a value and a state that satisfy `P`.
abbrev pub Returns {ℓ κ μ} :
    {E : Type ℓ} {S : Type κ} {A : Type μ} → (A → S → Type 0) → Outcome E S A → Type 0
Returns P (ok a s) = P a s
Returns P (err e s) = ⊥
Returns P panic = ⊥
Returns P out_of_fuel = ⊥

-- The call returns a value that satisfies `P`, or an error: it neither panics nor runs out of fuel.
abbrev pub Safe {ℓ κ μ} :
    {E : Type ℓ} {S : Type κ} {A : Type μ} → (A → Type 0) → Outcome E S A → Type 0
Safe P (ok a s) = P a
Safe P (err e s) = Unit
Safe P panic = ⊥
Safe P out_of_fuel = ⊥

-- The call returns a value and a state that satisfy `P`, or an error and a state that satisfies `J`:
-- it neither panics nor runs out of fuel.
abbrev pub Post {ℓ κ μ} :
    {E : Type ℓ} {S : Type κ} {A : Type μ}
    → (A → S → Type 0)
    → (S → Type 0)
    → Outcome E S A
    → Type 0
Post P J (ok a s) = P a s
Post P J (err e s) = J s
Post P J panic = ⊥
Post P J out_of_fuel = ⊥

-- The same, where the state keeps an invariant.
abbrev pub Keeps {ℓ κ μ} :
    {E : Type ℓ} {S : Type κ} {A : Type μ} → (S → Type 0) → (A → Type 0) → Outcome E S A → Type 0
Keeps I P = Post (λ a s. P a × I s) I

-- The call returns a value and a state that satisfy `P`, or an error.
abbrev pub Yields : {E S A : Type 0} → (A → S → Type 0) → Outcome E S A → Type 0
Yields P = Post P (λ s. Unit)

-- The same as `Post`, with a panic allowed.
abbrev pub Ends : {E S A : Type 0} → (A → S → Type 0) → (S → Type 0) → Outcome E S A → Type 0
Ends P J (ok a s) = P a s
Ends P J (err e s) = J s
Ends P J panic = Unit
Ends P J out_of_fuel = ⊥
