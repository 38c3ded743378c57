-- ===== src/StubIo/Trait.antt =====
-- src/stub_io.rs: `trait Read`. A call that fills `buf` is given the length of `buf`, and returns
-- what it wrote to the front of it.
use rust_delharc.Prelude.{ℕ, List, not, length, ◌==◌, if◌then◌else◌}
use rust_delharc.Outcome.{ok, err, panic, out_of_fuel, Prog}

-- `trait Read`
pub record Read : Type 1 where
  pub Reader : Type 0
  pub Error : Type 0
  pub unexpected_eof : Error
  pub read_all : ℕ → Prog Error Reader (List ℕ)
  pub read_exact : ℕ → Prog Error Reader (List ℕ)

-- The default method `Read::read_exact`.
unfoldable pub default_read_exact :
    {E R : Type 0} → E → (ℕ → Prog E R (List ℕ)) → ℕ → Prog E R (List ℕ)
default_read_exact eof read_all n r = elim (read_all n r) [
  | ok bytes r' ↦ if not (n == length bytes) then err eof r' else ok bytes r'
  | err e r' ↦ err e r'
  | panic ↦ panic
  | out_of_fuel ↦ out_of_fuel
]
