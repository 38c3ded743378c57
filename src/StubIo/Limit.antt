-- ===== src/StubIo/Limit.antt =====
-- src/stub_io.rs: `Take`, a reader that stops after a number of bytes.
use rust_delharc.Prelude.{ℕ, ◌-◌, List, [], length, min, ltb, ◌==◌, if◌then◌else◌}
use rust_delharc.Outcome.{ok, err, panic, out_of_fuel, Prog}
use rust_delharc.StubIo.Trait.{Read}

-- `struct Take<R>`
pub record Take (io : Read) : Type 0 where
  pub limit : ℕ
  pub inner : io.Reader

-- `impl Read for Take<R>`
module _ (io : Read) where
  unfoldable pub read_all : ℕ → Prog io.Error (Take io) (List ℕ)
  read_all n t = if t.limit == 0 then ok [] t else elim (io.read_all (min n t.limit) t.inner) [
    | ok bytes r ↦
        if ltb t.limit (length bytes)
        then panic
        else ok bytes (record { limit = t.limit - length bytes; inner = r })
    | err e r ↦ err e (record { limit = t.limit; inner = r })
    | panic ↦ panic
    | out_of_fuel ↦ out_of_fuel
  ]

  unfoldable pub read_exact : ℕ → Prog io.Error (Take io) (List ℕ)
  read_exact n t =
      if ltb t.limit n then err io.unexpected_eof t else elim (io.read_exact n t.inner) [
        | ok bytes r ↦ ok bytes (record { limit = t.limit - n; inner = r })
        | err e r ↦ err e (record { limit = t.limit; inner = r })
        | panic ↦ panic
        | out_of_fuel ↦ out_of_fuel
      ]

abbrev pub take_reader : Read → Read
take_reader io = record {
  Reader = Take io;
  Error = io.Error;
  unexpected_eof = io.unexpected_eof;
  read_all = read_all io;
  read_exact = read_exact io;
}
