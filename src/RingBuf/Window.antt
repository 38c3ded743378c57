-- ===== src/RingBuf/Window.antt =====
-- src/ringbuf.rs: a ring buffer of `2 ^ k` bytes against the window of the last `2 ^ k` bytes, the
-- newest first.
use rust_delharc.Prelude.{
  ℕ, zero, suc, ◌+◌, ◌-◌, ◌%◌, ◌^◌, ◌≤◌, ◌<◌, ◌≡◌, refl, sym, ap, ◌∙◌, ◌≢◌, List, [], ◌∷◌, length,
  get_or, set, take, length-set, get_or-set_self, get_or-set_ne, ltb, ◌==◌, if◌then◌else◌, bit_and,
  arith,
}
use mathlib.Core.Path.{ap₂}
use native.Mathlib.Nat.{one-le-pow, mod-eq_of_lt, mod_self}
use rust_delharc.Prelude.Bits.{bit_and_mask}
use rust_delharc.RingBuf.{RingArrayBuf, push}

module _ (k : ℕ) where
  abbrev pub size : ℕ
  size = 2 ^ k

  -- The invariant of the type: nothing is read or written out of bounds.
  pub record IsValid (r : RingArrayBuf) : Type 0 where
    pub full : length r.buffer ≡ size
    pub inside : r.cursor < size

  pub size-pos : 0 < size
  size-pos = one-le-pow k 2 (omega arith)

  pub mask-small : (x : ℕ) → x < size → bit_and x (size - 1) ≡ x
  mask-small x h = bit_and_mask k x ∙ mod-eq_of_lt h

  -- The cursor and the index of an iterator go round.
  abbrev pub next_cursor : ℕ → ℕ
  next_cursor c = if c + 1 == size then 0 else c + 1

  suc-mod : (c : ℕ) → c < size → (c + 1) % size ≡ next_cursor c
  suc-mod c h = ground (arith, mod_self size, mod-eq_of_lt {n = c + 1} {m = size})

  mask_next : (c : ℕ) → c < size → bit_and (c + 1) (size - 1) ≡ next_cursor c
  mask_next c h = bit_and_mask k (c + 1) ∙ suc-mod c h

  -- Where the byte `o` places back stands: 0 is the last byte that was written.
  abbrev pub back : ℕ → ℕ → ℕ
  back c o = if ltb o c then c - 1 - o else c + size - 1 - o

  pub back-lt : (c o : ℕ) → c < size → o < size → back c o < size
  back-lt c o h ho = ground arith

  abbrev pub recent : RingArrayBuf → ℕ → ℕ
  recent r o = get_or r.buffer (back r.cursor o) 0

  -- `n` bytes, from the one `o` places back on into the past.
  abbrev pub past : RingArrayBuf → ℕ → ℕ → List ℕ
  past r o zero = []
  past r o (suc n) = recent r o ∷ past r (suc o) n

  -- The abstract view: all that the buffer holds, the newest byte first.
  abbrev pub window : RingArrayBuf → List ℕ
  window r = past r 0 size

  length-past : (r : RingArrayBuf) (o n : ℕ) → length (past r o n) ≡ n
  length-past r o zero = refl
  length-past r o (suc n) = ap suc (length-past r (suc o) n)

  take-past : (r : RingArrayBuf) (o n m : ℕ) → n ≤ m → take n (past r o m) ≡ past r o n
  take-past r o zero m h = refl
  take-past r o (suc n) zero h = absurd (omega arith)
  take-past r o (suc n) (suc m) h = ap (◌∷◌ (recent r o)) (take-past r (suc o) n m (omega arith))

  get_or-past : (r : RingArrayBuf) (o n i : ℕ) → i < n → get_or (past r o n) i 0 ≡ recent r (o + i)
  get_or-past r o zero i h = absurd (omega arith)
  get_or-past r o (suc n) zero h = let e : o ≡ o + 0 = omega arith in ap (recent r) e
  get_or-past r o (suc n) (suc i) h =
      let e : suc o + i ≡ o + suc i = omega arith in
      get_or-past r (suc o) n i (omega arith) ∙ ap (recent r) e

  pub length-window : (r : RingArrayBuf) → length (window r) ≡ size
  length-window r = length-past r 0 size

  pub get_or-window : (r : RingArrayBuf) (o : ℕ) → o < size → get_or (window r) o 0 ≡ recent r o
  get_or-window r o h = get_or-past r 0 size o h ∙ ap (recent r) (omega arith)

  module _ (r : RingArrayBuf) (b : ℕ) (v : IsValid r) where
    -- What `push` does, without the masks.
    pub push_lem :
        push size r b ≡ record { buffer = set r.buffer r.cursor b; cursor = next_cursor r.cursor }
    unfolding push
    push_lem = rw (mask-small r.cursor v.inside, mask_next r.cursor v.inside) refl

    pub push-IsValid : IsValid (push size r b)
    push-IsValid = rw push_lem (record {
      full = length-set r.buffer r.cursor b ∙ v.full;
      inside = ground (arith, v.inside, size-pos);
    })

    recent-push_zero : recent (push size r b) 0 ≡ b
    recent-push_zero =
        rw push_lem
          (newest ∙ get_or-set_self r.buffer r.cursor b 0 (omega (arith, v.full, v.inside)))
      where
        place : back (next_cursor r.cursor) 0 ≡ r.cursor
        place = ground (arith, v.inside)

        newest :
            get_or (set r.buffer r.cursor b) (back (next_cursor r.cursor) 0) 0
            ≡ get_or (set r.buffer r.cursor b) r.cursor 0
        newest = ap (λ i. get_or (set r.buffer r.cursor b) i 0) place

    recent-push-suc : (o : ℕ) → suc o < size → recent (push size r b) (suc o) ≡ recent r o
    recent-push-suc o h =
        rw push_lem (older ∙ get_or-set_ne r.buffer r.cursor (back r.cursor o) b 0 other)
      where
        place : back (next_cursor r.cursor) (suc o) ≡ back r.cursor o
        place = ground (arith, v.inside)

        older :
            get_or (set r.buffer r.cursor b) (back (next_cursor r.cursor) (suc o)) 0
            ≡ get_or (set r.buffer r.cursor b) (back r.cursor o) 0
        older = ap (λ i. get_or (set r.buffer r.cursor b) i 0) place

        other : r.cursor ≢ back r.cursor o
        other = ground (arith, v.inside)

    past-push : (n o : ℕ) → o + n < size → past (push size r b) (suc o) n ≡ past r o n
    past-push zero o h = refl
    past-push (suc n) o h =
        ap₂ ◌∷◌ (recent-push-suc o (omega arith)) (past-push n (suc o) (omega arith))

    -- On a valid ring buffer of 2^k bytes, a push puts its byte in front of the window of the last
    -- 2^k bytes, and the oldest byte falls out of it.
    pub window-push : window (push size r b) ≡ b ∷ take (size - 1) (window r)
    window-push =
        ap (past (push size r b) 0) whole
        ∙ ap₂ ◌∷◌ recent-push_zero (past-push (size - 1) 0 (omega (arith, size-pos)))
        ∙ sym (ap (◌∷◌ b) (take-past r 0 (size - 1) size (omega arith)))
      where
        whole : size ≡ suc (size - 1)
        whole = omega (arith, size-pos)
