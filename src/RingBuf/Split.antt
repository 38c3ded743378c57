-- ===== src/RingBuf/Split.antt =====
-- src/ringbuf.rs: a copy out of a ring buffer in two parts. Only the place of an index in the buffer
-- matters, so the second part may begin at any index with the right place.
use rust_delharc.Prelude.{
  ℕ, zero, suc, ◌+◌, ◌-◌, ◌%◌, ◌^◌, ◌≤◌, ◌<◌, ◌≡◌, refl, sym, ap, ◌∙◌, List, ◌∷◌, ◌++◌, get_or, u64,
  bit_and, arith,
}
use native.Mathlib.Nat.{mod-eq_of_lt, mod-mod, mod-add-mod, mod-lt}
use rust_delharc.Prelude.Bits.{bit_and_mask}
use rust_delharc.RingBuf
use rust_delharc.RingBuf.{RingArrayBuf, HistoryIter}
use rust_delharc.RingBuf.Window
use rust_delharc.RingBuf.Copy.{wrap_index}

module _ (k : ℕ) (fits : k ≤ 64) where
  abbrev size : ℕ
  size = 2 ^ k

  abbrev from : ℕ → RingArrayBuf → HistoryIter
  from i r = record { index = i; ringbuf = r }

  -- The byte and the buffer that `next` yields.
  abbrev byte_at : ℕ → RingArrayBuf → ℕ
  byte_at i r = get_or r.buffer (i % size) 0

  next_lem :
      (i : ℕ) (r : RingArrayBuf)
      → RingBuf.next size (from i r)
        ≡ (byte_at i r, from (u64 (i + 1)) (RingBuf.push size r (byte_at i r)))
  unfolding RingBuf.next
  next_lem i r =
      ap
        (λ (j : ℕ).
          (get_or r.buffer j 0, from (u64 (i + 1)) (RingBuf.push size r (get_or r.buffer j 0))))
        (bit_and_mask k i)

  copy_next :
      (n i : ℕ) (r : RingArrayBuf)
      → RingBuf.copy_history size (suc n) (from i r) ≡ (
        byte_at i r
            ∷ (RingBuf.copy_history size n
                (from (u64 (i + 1)) (RingBuf.push size r (byte_at i r)))).0,
        (RingBuf.copy_history size n (from (u64 (i + 1)) (RingBuf.push size r (byte_at i r)))).1,
      )
  unfolding RingBuf.copy_history
  copy_next n i r =
      ap
        (λ (p : ℕ × HistoryIter).
          (p.0 ∷ (RingBuf.copy_history size n p.1).0, (RingBuf.copy_history size n p.1).1))
        (next_lem i r)

  -- The rest of a copy behind its first byte.
  abbrev tail : ℕ → ℕ → RingArrayBuf → ℕ → List ℕ × RingArrayBuf
  tail n i r b = RingBuf.copy_history size n (from (u64 (i + 1)) (RingBuf.push size r b))

  abbrev put : ℕ → List ℕ × RingArrayBuf → List ℕ × RingArrayBuf
  put b p = (b ∷ p.0, p.1)

  copy_suc :
      (n i : ℕ) (r : RingArrayBuf)
      → RingBuf.copy_history size (suc n) (from i r) ≡ put (byte_at i r) (tail n i r (byte_at i r))
  copy_suc n i r = copy_next n i r

  same_place :
      (n i j : ℕ) (r : RingArrayBuf)
      → i % size ≡ j % size
      → RingBuf.copy_history size n (from i r) ≡ RingBuf.copy_history size n (from j r)
  unfolding RingBuf.copy_history
  same_place zero i j r e = refl
  same_place (suc n) i j r e =
      let ih =
        same_place n (u64 (i + 1)) (u64 (j + 1)) (RingBuf.push size r (byte_at j r))
          (wrap_index k fits i ∙ ap (λ (x : ℕ). (x + 1) % size) e ∙ sym (wrap_index k fits j)) in
      copy_suc n i r
      ∙ ap (λ (x : ℕ). put (get_or r.buffer x 0) (tail n i r (get_or r.buffer x 0))) e
      ∙ ap (put (byte_at j r)) ih
      ∙ sym (copy_suc n j r)

  -- The first `m` bytes, and the others from any index with the place behind them.
  pub copy_history-split :
      (m n i j : ℕ) (r : RingArrayBuf)
      → j % size ≡ (i + m) % size
      → let (first, r') = RingBuf.copy_history size m (from i r) in
        let (second, r'') = RingBuf.copy_history size n (from j r') in
        RingBuf.copy_history size (m + n) (from i r) ≡ (first ++ second, r'')
  unfolding RingBuf.copy_history
  copy_history-split zero n i j r e =
      let none_left : 0 + n ≡ n = omega arith in
      let same : i + 0 ≡ i = omega arith in rw none_left (same_place n i j r (sym (rw same at e)))
  copy_history-split (suc m) n i j r e =
      let b = byte_at i r in
      let more : suc m + n ≡ suc (m + n) = omega arith in
      let place : j % size ≡ (u64 (i + 1) + m) % size =
        e
        ∙ ap (λ (x : ℕ). x % size) {x = i + suc m} {y = i + 1 + m} (omega arith)
        ∙ sym (mod-add-mod (i + 1) size m)
        ∙ ap (λ (x : ℕ). (x + m) % size) (sym (mod-add-mod i size 1) ∙ sym (wrap_index k fits i))
        ∙ mod-add-mod (u64 (i + 1)) size m in
      let ih = copy_history-split m n (u64 (i + 1)) j (RingBuf.push size r b) place in
      ap (λ (x : ℕ). RingBuf.copy_history size x (from i r)) more
      ∙ copy_suc (m + n) i r
      ∙ ap (put b) ih
      ∙ ap
          (λ (p : List ℕ × RingArrayBuf). (
            p.0 ++ (RingBuf.copy_history size n (from j p.1)).0,
            (RingBuf.copy_history size n (from j p.1)).1,
          ))
          (sym (copy_suc m i r))

  -- The cursor goes on by the bytes copied.
  pub copy_history-cursor :
      (m i : ℕ) (r : RingArrayBuf)
      → r.cursor < size
      → (RingBuf.copy_history size m (from i r)).1.cursor ≡ (r.cursor + m) % size
  unfolding RingBuf.copy_history RingBuf.push
  copy_history-cursor zero i r h =
      let same : r.cursor + 0 ≡ r.cursor = omega arith in rw same (sym (mod-eq_of_lt h))
  copy_history-cursor (suc m) i r h =
      let r' = RingBuf.push size r (byte_at i r) in
      let next : r'.cursor ≡ (r.cursor + 1) % size = bit_and_mask k (r.cursor + 1) in
      let small = mod-lt (r.cursor + 1) (Window.size-pos k) in
      ap (λ (p : List ℕ × RingArrayBuf). p.1.cursor) (copy_suc m i r)
      ∙ copy_history-cursor m (u64 (i + 1)) r' (rw next small)
      ∙ ap (λ (c : ℕ). (c + m) % size) next
      ∙ mod-add-mod (r.cursor + 1) size m
      ∙ ap (λ (x : ℕ). x % size) {x = r.cursor + 1 + m} {y = r.cursor + suc m} (omega arith)

  -- A copy from a position goes on at the position behind.
  pub iter_from_pos-split :
      (m n pos pos' : ℕ) (r : RingArrayBuf)
      → pos' % size ≡ (pos + m) % size
      → let (first, r') = RingBuf.copy_history size m (RingBuf.iter_from_pos size r pos) in
        let (second, r'') = RingBuf.copy_history size n (RingBuf.iter_from_pos size r' pos') in
        RingBuf.copy_history size (m + n) (RingBuf.iter_from_pos size r pos)
        ≡ (first ++ second, r'')
  unfolding RingBuf.iter_from_pos
  iter_from_pos-split m n pos pos' r e =
      copy_history-split m n (bit_and pos (size - 1)) (bit_and pos' (size - 1)) r (
        rw (bit_and_mask k pos, bit_and_mask k pos')
          (mod-mod pos' size ∙ e ∙ sym (mod-add-mod pos size m)))

  -- A copy from an offset goes on at the same offset.
  pub iter_from_offset-split :
      (m n offset offset' : ℕ) (r : RingArrayBuf)
      → r.cursor < size
      → offset' % size ≡ offset % size
      → let (first, r') = RingBuf.copy_history size m (RingBuf.iter_from_offset size r offset) in
        let (second, r'') =
          RingBuf.copy_history size n (RingBuf.iter_from_offset size r' offset') in
        RingBuf.copy_history size (m + n) (RingBuf.iter_from_offset size r offset)
        ≡ (first ++ second, r'')
  unfolding RingBuf.iter_from_offset
  iter_from_offset-split m n offset offset' r h e =
      let i = r.cursor + size - (offset % size + 1) in
      let r' = (RingBuf.copy_history size m (from i r)).1 in
      let o = offset % size in
      let small = mod-lt offset (Window.size-pos k) in
      let place : (r'.cursor + size - (offset' % size + 1)) % size
          ≡ (r.cursor + size - (o + 1) + m) % size =
        rw (copy_history-cursor m i r h, e)
          (ap (λ (x : ℕ). x % size) {x = (r.cursor + m) % size + size - (o + 1)}
              {y = (r.cursor + m) % size + (size - (o + 1))} (omega arith)
            ∙ mod-add-mod (r.cursor + m) size (size - (o + 1))
            ∙ ap (λ (x : ℕ). x % size) {x = r.cursor + m + (size - (o + 1))}
                {y = r.cursor + size - (o + 1) + m} (omega arith)) in
      let start = r.cursor + size - (bit_and offset (size - 1) + 1) in
      let middle = (RingBuf.copy_history size m (from start r)).1 in
      copy_history-split m n start (middle.cursor + size - (bit_and offset' (size - 1) + 1)) r
        (rw (bit_and_mask k offset, bit_and_mask k offset') place)
