-- ===== src/RingBuf.antt =====
-- src/ringbuf.rs: the sliding window. `N`, the size of the buffer, is a power of two.
-- An index is masked by `N - 1`, so that it stays in the buffer: `RingBuf.Window`.
pub mod Window
pub mod Copy
pub mod Split
pub mod Default
use rust_delharc.Prelude.{
  ℕ, zero, suc, ◌+◌, ◌-◌, Bool, not, ◌&&◌, Option, none, some, List, [], ◌∷◌, get_or, set,
  replicate, bit_and, u64, ◌==◌, if◌then◌else◌,
}

-- `struct RingArrayBuf<N>`
pub record RingArrayBuf : Type 0 where
  pub buffer : List ℕ
  pub cursor : ℕ

-- `struct HistoryIter`, with the ring buffer that it borrows.
pub record HistoryIter : Type 0 where
  pub index : ℕ
  pub ringbuf : RingArrayBuf

-- `usize::is_power_of_two`
abbrev is_power_of_two : ℕ → Bool
is_power_of_two n = not (n == 0) && (bit_and n (n - 1) == 0)

module _ (N : ℕ) where
  -- `index_mask!(N)`
  abbrev pub index_mask : ℕ
  index_mask = N - 1

  -- A buffer of spaces, which `default` returns unless its assertion fails.
  unfoldable pub spaces : RingArrayBuf
  spaces = record { buffer = replicate N b' '; cursor = 0 }

  unfoldable pub default : Option RingArrayBuf
  unfolding spaces
  default = if is_power_of_two N then some spaces else none

  -- `Index::index`
  unfoldable pub index : RingArrayBuf → ℕ → ℕ
  index r i = get_or r.buffer (bit_and i index_mask) 0

  -- The position is the `isize` argument as a `usize`: `-18` is `2 ^ 64 - 18`.
  unfoldable pub set_cursor : RingArrayBuf → ℕ → RingArrayBuf
  set_cursor r pos = record r { cursor = bit_and pos index_mask }

  unfoldable pub push : RingArrayBuf → ℕ → RingArrayBuf
  push r byte =
      let index = r.cursor in
      record {
        buffer = set r.buffer (bit_and index index_mask) byte;
        cursor = bit_and (index + 1) index_mask;
      }

  unfoldable pub iter_from_offset : RingArrayBuf → ℕ → HistoryIter
  iter_from_offset r offset =
      let offset' = bit_and offset index_mask + 1 in
      record { index = r.cursor + N - offset'; ringbuf = r }

  unfoldable pub iter_from_pos : RingArrayBuf → ℕ → HistoryIter
  iter_from_pos r pos = record { index = bit_and pos index_mask; ringbuf = r }

  -- `HistoryIter::next`, which always yields a byte; `index` is `usize` and wraps.
  unfoldable pub next : HistoryIter → ℕ × HistoryIter
  unfolding index push
  next h =
      let res = index h.ringbuf h.index in
      (res, record { index = u64 (h.index + 1); ringbuf = push h.ringbuf res })

  -- The first `count` bytes that the iterator yields, and the buffer after them: the loop
  -- `for (t, s) in target.zip(history_iter).take(count) { *t = s; }` of the decoders.
  unfoldable pub copy_history : ℕ → HistoryIter → List ℕ × RingArrayBuf
  unfolding next
  copy_history zero h = ([], h.ringbuf)
  copy_history (suc count) h =
      let (s, h') = next h in let (rest, r) = copy_history count h' in (s ∷ rest, r)

  -- Pushes of a run of bytes.
  unfoldable pub push_all : RingArrayBuf → List ℕ → RingArrayBuf
  unfolding push
  push_all r [] = r
  push_all r (b ∷ bs) = push_all (push r b) bs
