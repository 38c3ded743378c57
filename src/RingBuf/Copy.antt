-- ===== src/RingBuf/Copy.antt =====
-- src/ringbuf.rs: a copy out of a ring buffer, byte by byte and back into it, against the same copy
-- on the window of the last `2 ^ k` bytes.
use rust_delharc.Prelude.{
  ℕ, zero, suc, ◌+◌, ◌-◌, ◌%◌, ◌^◌, ◌≤◌, ◌<◌, ◌≡◌, refl, sym, ap, ◌∙◌, List, [], ◌∷◌, length,
  get_or, take, u64, arith,
}
use Prim.Native.Nat.{◌∣◌}
use mathlib.Core.Path.{ap₂}
use native.Mathlib.Nat.{
  mod-eq_of_lt, mod-eq-sub-mod, mod-mod, mod-lt, mod-mod_of_dvd, mod-add-mod, mod_self, pow-suc,
  dvd_refl, dvd-mul_right_of_dvd,
}
use rust_delharc.Prelude.Bits.{bit_and_mask}
use rust_delharc.RingBuf
use rust_delharc.RingBuf.{RingArrayBuf, HistoryIter}
use rust_delharc.RingBuf.Window

-- Each byte is the one `offset` places back, and is itself put into the window: a copy may overlap
-- the bytes that it writes.
unfoldable pub copy_window : ℕ → ℕ → List ℕ → List ℕ × List ℕ
copy_window offset zero w = ([], w)
copy_window offset (suc count) w =
    let b = get_or w offset 0 in
    let (rest, w') = copy_window offset count (b ∷ take (length w - 1) w) in (b ∷ rest, w')

pub length-copy_history : (N n : ℕ) (h : HistoryIter) → length (RingBuf.copy_history N n h).0 ≡ n
unfolding RingBuf.copy_history
length-copy_history N zero h = refl
length-copy_history N (suc n) h = ap suc (length-copy_history N n (RingBuf.next N h).1)

pub two_pow-dvd : (j k m : ℕ) → j + k ≡ m → 2 ^ k ∣ 2 ^ m
two_pow-dvd zero k m e = let e' : m ≡ k = omega arith in rw e' (dvd_refl (2 ^ k))
two_pow-dvd (suc j) k zero e = absurd (omega arith)
two_pow-dvd (suc j) k (suc m) e =
    rw (pow-suc 2 m) (dvd-mul_right_of_dvd (2 ^ k) (two_pow-dvd j k m (omega arith)) 2)

module _ (k : ℕ) (fits : k ≤ 64) where
  abbrev size : ℕ
  size = 2 ^ k

  -- An index whose place in the buffer is `o` places back.
  abbrev PointsAt : HistoryIter → ℕ → Type 0
  PointsAt h o = h.index % size ≡ Window.back k h.ringbuf.cursor o

  -- The wrap of the index at 64 bits does not show in a buffer.
  pub wrap_index : (x : ℕ) → u64 (x + 1) % size ≡ (x % size + 1) % size
  wrap_index x =
      mod-mod_of_dvd size (x + 1) (two_pow-dvd (64 - k) k 64 (omega arith))
      ∙ sym (mod-add-mod x size 1)

  module _ (h : HistoryIter) (o : ℕ) (v : Window.IsValid k h.ringbuf) (ho : o < size)
      (p : PointsAt h o) where
    next_byte : (RingBuf.next size h).0 ≡ get_or (Window.window k h.ringbuf) o 0
    unfolding RingBuf.next
    next_byte =
        ap (λ i. get_or h.ringbuf.buffer i 0) (bit_and_mask k h.index ∙ p)
        ∙ sym (Window.get_or-window k h.ringbuf o ho)

    next-ringbuf :
        (RingBuf.next size h).1.ringbuf ≡ RingBuf.push size h.ringbuf (RingBuf.next size h).0
    unfolding RingBuf.next
    next-ringbuf = refl

    back_next :
        (Window.back k h.ringbuf.cursor o + 1) % size
        ≡ Window.back k (Window.next_cursor k h.ringbuf.cursor) o
    back_next = ground (
      arith,
      v.inside,
      mod-eq_of_lt {n = Window.back k h.ringbuf.cursor o + 1} {m = size},
      mod_self size,
    )

    next-PointsAt : PointsAt (RingBuf.next size h).1 o
    unfolding RingBuf.next
    next-PointsAt =
        wrap_index h.index
        ∙ ap (λ i. (i + 1) % size) p
        ∙ back_next
        ∙ sym (
            ap (λ (r : RingArrayBuf). Window.back k r.cursor o)
              (Window.push_lem k h.ringbuf (RingBuf.next size h).0 v))

    next-window :
        let w = Window.window k h.ringbuf in
        Window.window k (RingBuf.next size h).1.ringbuf ≡ get_or w o 0 ∷ take (length w - 1) w
    unfolding RingBuf.next RingBuf.push
    next-window =
        Window.window-push k h.ringbuf (RingBuf.next size h).0 v
        ∙ ap₂ ◌∷◌ next_byte (
            ap (λ n. take (n - 1) (Window.window k h.ringbuf))
              (sym (Window.length-window k h.ringbuf)))

    next-IsValid : Window.IsValid k (RingBuf.next size h).1.ringbuf
    unfolding RingBuf.next RingBuf.push
    next-IsValid = Window.push-IsValid k h.ringbuf (RingBuf.next size h).0 v

  -- From an index that points `o` places back, `count` bytes are those of the window.
  copy_history_refines :
      (count : ℕ) (h : HistoryIter) (o : ℕ)
      → Window.IsValid k h.ringbuf
      → o < size
      → PointsAt h o
      → let (bytes, r) = RingBuf.copy_history size count h in
        let (bytes', w) = copy_window o count (Window.window k h.ringbuf) in
        (bytes ≡ bytes') × (Window.window k r ≡ w) × Window.IsValid k r
  unfolding copy_window RingBuf.copy_history
  copy_history_refines zero h o v ho p = (refl, refl, v)
  copy_history_refines (suc count) h o v ho p =
      let (bytes, w, valid) =
        copy_history_refines count (RingBuf.next size h).1 o (next-IsValid h o v ho p) ho
          (next-PointsAt h o v ho p) in
      let step = next-window h o v ho p in
      (
        ap₂ ◌∷◌ (next_byte h o v ho p) (bytes ∙ ap (λ x. (copy_window o count x).0) step),
        w ∙ ap (λ x. (copy_window o count x).1) step,
        valid,
      )

  module _ (r : RingArrayBuf) (v : Window.IsValid k r) (count : ℕ) where
    offset-PointsAt :
        (offset : ℕ) → PointsAt (RingBuf.iter_from_offset size r offset) (offset % size)
    unfolding RingBuf.iter_from_offset
    offset-PointsAt offset =
        rw (bit_and_mask k offset)
          (around r.cursor (offset % size) v.inside (mod-lt offset (Window.size-pos k)))
      where
        around : (c d : ℕ) → c < size → d < size → (c + size - (d + 1)) % size ≡ Window.back k c d
        around c d hc hd = ground (
          arith,
          mod-eq-sub-mod {n = c + size - (d + 1)} {m = size},
          mod-eq_of_lt {n = c + size - (d + 1) - size} {m = size},
          mod-eq_of_lt {n = c + size - (d + 1)} {m = size},
        )

    pos-PointsAt :
        (pos : ℕ)
        → PointsAt (RingBuf.iter_from_pos size r pos) (Window.back k r.cursor (pos % size))
    unfolding RingBuf.iter_from_pos
    pos-PointsAt pos = rw (bit_and_mask k pos) (
        mod-mod pos size
        ∙ back_back r.cursor (pos % size) v.inside (mod-lt pos (Window.size-pos k)))
      where
        back_back : (c p : ℕ) → c < size → p < size → p ≡ Window.back k c (Window.back k c p)
        back_back c p hc hp = ground arith

    -- On a valid ring buffer of 2^k bytes, k at most 64, copying from an offset yields the bytes of
    -- the same copy on the window of the last 2^k bytes, one at a time and each put back into the
    -- window, and leaves that window and a valid buffer.
    pub iter_from_offset_refines :
        (offset : ℕ)
        → let (bytes, r') =
            RingBuf.copy_history size count (RingBuf.iter_from_offset size r offset) in
          let (bytes', w) = copy_window (offset % size) count (Window.window k r) in
          (bytes ≡ bytes') × (Window.window k r' ≡ w) × Window.IsValid k r'
    unfolding RingBuf.iter_from_offset
    iter_from_offset_refines offset =
        copy_history_refines count (RingBuf.iter_from_offset size r offset) (offset % size) v
          (mod-lt offset (Window.size-pos k)) (offset-PointsAt offset)

    -- On a valid ring buffer of 2^k bytes, k at most 64, copying from a position is the same copy
    -- on the window from as many places back as that position is behind the cursor, and leaves that
    -- window and a valid buffer.
    pub iter_from_pos_refines :
        (pos : ℕ)
        → let (bytes, r') = RingBuf.copy_history size count (RingBuf.iter_from_pos size r pos) in
          let offset = Window.back k r.cursor (pos % size) in
          let (bytes', w) = copy_window offset count (Window.window k r) in
          (bytes ≡ bytes') × (Window.window k r' ≡ w) × Window.IsValid k r'
    unfolding RingBuf.iter_from_pos
    iter_from_pos_refines pos =
        copy_history_refines count (RingBuf.iter_from_pos size r pos)
          (Window.back k r.cursor (pos % size)) v
          (Window.back-lt k r.cursor (pos % size) v.inside (mod-lt pos (Window.size-pos k)))
          (pos-PointsAt pos)
