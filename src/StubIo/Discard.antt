-- ===== src/StubIo/Discard.antt =====
-- src/stub_io.rs: `discard_to_end`.
use rust_delharc.Prelude.{ℕ, zero, suc, length, ◌==◌, if◌then◌else◌}
use rust_delharc.Outcome.{ok, err, panic, out_of_fuel, Prog}
use rust_delharc.StubIo.Trait.{Read}

-- `discard_to_end::<_, BUF>`, whose loop takes fuel: see `StubIo.Slices` for how much is enough.
module _ (io : Read) where
  unfoldable pub discard_loop : ℕ → ℕ → Prog io.Error io.Reader (Unit {0})
  discard_loop zero buf r = out_of_fuel
  discard_loop (suc fuel) buf r = elim (io.read_all buf r) [
    | ok bytes r' ↦
        let rest = discard_loop fuel buf r' in if length bytes == 0 then ok tt r' else rest
    | err e r' ↦ err e r'
    | panic ↦ panic
    | out_of_fuel ↦ out_of_fuel
  ]

  unfoldable pub discard_to_end : ℕ → ℕ → Prog io.Error io.Reader (Unit {0})
  unfolding discard_loop
  discard_to_end fuel buf r = if buf == 0 then panic else discard_loop fuel buf r
