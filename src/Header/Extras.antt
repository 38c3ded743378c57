-- ===== src/Header/Extras.antt =====
-- src/header/parser.rs: going through the extra headers of a header, `for header in self.iter_extra()`.
pub mod Chain
use rust_delharc.Prelude.{ℕ, zero, suc, ◌+◌, List, length}
use rust_delharc.Header.Types.{LhaHeader}
use rust_delharc.Header.Parser.Extra.{
  ExtraHeaderIter, Yield, finished, header, split_panic, iter_extra, next,
}

-- What the iterator yields in turn: headers up to the end or up to a panic; and no more than the
-- fuel allows.
pub data Iteration : Type 0 where
  done : Iteration
  item : List ℕ → Iteration → Iteration
  panicked : Iteration
  unfinished : Iteration

unfoldable pub iterate : ℕ → ExtraHeaderIter → Iteration
iterate zero it = unfinished
iterate (suc fuel) it = elim (next it) [
  | finished ↦ done
  | header bytes it' ↦ item bytes (iterate fuel it')
  | split_panic ↦ panicked
]

-- Each header takes a byte or more, so that their number is bounded by that of the bytes.
unfoldable pub extras : LhaHeader → Iteration
unfolding iterate
extras h = iterate (length h.extra_headers + 1) (iter_extra h)
