-- ===== src/BitStream/Total.antt =====
-- src/bitstream.rs: a stream over any reader that keeps its promises, and what reading from it leaves.
use rust_delharc.Prelude.{
  ℕ, ◌+◌, ◌-◌, ◌*◌, ◌/◌, ◌%◌, ◌^◌, ◌≤◌, ◌<◌, ◌≡◌, refl, sym, ap, ◌∙◌, inl, inr, true, Bool-cases,
  List, length, arith, ltb, leb, ◌==◌, ==_iff, ltb→lt, ltb-false→≤, ==_zero-false,
}
use mathlib.Core.Path.{subst}
use native.Mathlib.Nat.{
  one-le-pow, div-lt_iff_lt-mul, mul-le-mul_right, mod-lt, mod-eq_of_lt, pow-le-pow_right,
}
use rust_delharc.Outcome.{Outcome, ok, err, panic, out_of_fuel, Post, ret}
use rust_delharc.Outcome.Rules.{Post-bind, Post-mono}
use rust_delharc.Error.{LhaError, io}
use rust_delharc.StubIo.{Read}
use rust_delharc.StubIo.Laws.{IsReader, AreBytes}
use rust_delharc.BitStream.{BitStream, new, next_bits, read_bit, read_bits, refill}
use rust_delharc.BitStream.Marker.{two_pow-add}
use rust_delharc.BitStream.Refill.{be, be-lt, refill_lem}
use rust_delharc.BitStream.Word
use rust_delharc.BitStream.Word.{marked_stream, next_bits-refill}

module _ (rd : Read) (laws : IsReader rd) where
  -- A stream with a marked word in front of a valid reader, and at most `c` bits in all.
  pub record HasBits (c : ℕ) (s : BitStream rd) : Type 0 where
    pub have : ℕ
    pub bits : ℕ
    pub form : s ≡ marked_stream rd s.inner have bits
    pub room : have ≤ 63
    pub small : bits < 2 ^ have
    pub valid : laws.Valid s.inner
    pub few : have + 8 * laws.left s.inner ≤ c

  pub HasBits-mono : (b c : ℕ) (s : BitStream rd) → b ≤ c → HasBits b s → HasBits c s
  HasBits-mono b c s h x = record {
    have = x.have;
    bits = x.bits;
    form = x.form;
    room = x.room;
    small = x.small;
    valid = x.valid;
    few = omega (arith, x.few);
  }

  pub new-HasBits : (r : rd.Reader) → laws.Valid r → HasBits (8 * laws.left r) (new rd r)
  unfolding new
  new-HasBits r h = record {
    have = 0;
    bits = 0;
    form = refl;
    room = omega arith;
    small = omega arith;
    valid = h;
    few = omega arith;
  }

  -- After `n` bits, which are a number below `2 ^ n`.
  abbrev pub Taken : ℕ → ℕ → ℕ → BitStream rd → Type 0
  Taken c n x t = (x < 2 ^ n) × HasBits (c - n) t × (n ≤ c)

  module _ (c n : ℕ) (pos : 0 < n) (fits : n ≤ 64) where
    Taken-buffered :
        (r : rd.Reader) (have v : ℕ)
        → have ≤ 63
        → v < 2 ^ have
        → laws.Valid r
        → have + 8 * laws.left r ≤ c
        → n ≤ have
        → Post (Taken c n) (HasBits c) (next_bits rd n (marked_stream rd r have v))
    Taken-buffered r have v room small valid few h =
        let A-pos : 0 < 2 ^ (have - n) = one-le-pow (have - n) 2 (omega arith) in
        let whole : 2 ^ have ≡ 2 ^ n * 2 ^ (have - n) =
          let w : have ≡ n + (have - n) = omega arith in
          ap (λ (k : ℕ). 2 ^ k) w ∙ two_pow-add n (have - n) in
        rw (Word.next_bits-buffered rd r have v n room pos fits h, Post)
          (
            (div-lt_iff_lt-mul {x = v} {y = 2 ^ n} A-pos).1 (omega arith),
            record {
              have = have - n;
              bits = v % 2 ^ (have - n);
              form = refl;
              room = omega arith;
              small = mod-lt v A-pos;
              valid = valid;
              few = omega arith;
            },
            omega arith,
          )

    Taken-refilled :
        (r : rd.Reader) (have v : ℕ) (bytes : List ℕ)
        → have < n
        → have ≤ 63
        → v < 2 ^ have
        → length bytes ≤ 8
        → AreBytes bytes
        → laws.Valid r
        → have + 8 * (laws.left r + length bytes) ≤ c
        → (s : BitStream rd) → s.bits_buf ≡ (2 * v + 1) * 2 ^ (63 - have)
        → Post
            (Taken c n)
            (HasBits c)
            (refill rd ((2 * v + 1) * 2 ^ (n - have - 1)) (n - have) bytes r s)
    unfolding refill
    Taken-refilled r have v bytes h room small size are valid few s w =
        elim (Bool-cases (ltb (8 * length bytes) (n - have))) [
          | inl short ↦
              rw (short, Post)
                (record {
                  have = have;
                  bits = v;
                  form = ap (λ (b : ℕ). record { inner = r; bits_buf = b }) w;
                  room = room;
                  small = small;
                  valid = valid;
                  few = omega arith;
                })
          | inr enough ↦
              let g = ltb-false→≤ _ _ enough in
              let e = have + 8 * length bytes - n in
              let E-pos : 0 < 2 ^ e = one-le-pow e 2 (omega arith) in
              rw (refill_lem rd v (n - have) e bytes r s (omega arith) size (omega arith) are, Post)
                (
                  sum_small v bytes have e h small are (omega arith),
                  record {
                    have = e;
                    bits = be bytes % 2 ^ e;
                    form = refl;
                    room = omega arith;
                    small = mod-lt (be bytes) E-pos;
                    valid = valid;
                    few = omega arith;
                  },
                  omega arith,
                )
        ]
      where
        sum_small :
            (v : ℕ) (bytes : List ℕ) (have e : ℕ)
            → have < n
            → v < 2 ^ have
            → AreBytes bytes
            → n - have + e ≡ 8 * length bytes
            → v * 2 ^ (n - have) + be bytes / 2 ^ e < 2 ^ n
        sum_small v bytes have e h small are read =
            let top : 2 ^ n ≡ 2 ^ have * 2 ^ (n - have) =
              let w : n ≡ have + (n - have) = omega arith in
              ap (λ (k : ℕ). 2 ^ k) w ∙ two_pow-add have (n - have) in
            let whole : 2 ^ (8 * length bytes) ≡ 2 ^ (n - have) * 2 ^ e =
              ap (λ (k : ℕ). 2 ^ k) (sym read) ∙ two_pow-add (n - have) e in
            let low : be bytes / 2 ^ e < 2 ^ (n - have) =
              (div-lt_iff_lt-mul {x = be bytes} {y = 2 ^ (n - have)}
                  (one-le-pow e 2 (omega arith))).1
                (omega (arith, be-lt bytes are)) in
            omega
              (arith, mul-le-mul_right {m = v + 1} {n = 2 ^ have} (2 ^ (n - have)) (omega arith))

    pub next_bits-Taken :
        (s : BitStream rd) → HasBits c s → Post (Taken c n) (HasBits c) (next_bits rd n s)
    next_bits-Taken s h =
        subst (λ x. Post (Taken c n) (HasBits c) (next_bits rd n x)) (sym h.form)
          (elim (Bool-cases (ltb h.have n)) [
            | inl more ↦
                let g = ltb→lt _ _ more in
                rw (next_bits-refill rd s.inner h.have h.bits n h.room pos fits g, Post)
                  (by_case g (rd.read_all 8 s.inner) (laws.read_all-Post 8 s.inner h.valid))
            | inr enough ↦
                Taken-buffered s.inner h.have h.bits h.room h.small h.valid h.few
                  (ltb-false→≤ _ _ enough)
          ])
      where
        old : BitStream rd
        old = marked_stream rd s.inner h.have h.bits

        by_case :
            h.have < n
            → (o : Outcome rd.Error rd.Reader (List ℕ))
            → Post
                (λ bytes r.
                  (length bytes ≤ 8)
                  × AreBytes bytes
                  × laws.Valid r
                  × (laws.left r + length bytes ≤ laws.left s.inner))
                (λ r. laws.Valid r × (laws.left r ≤ laws.left s.inner))
                o
            → Post
                (Taken c n)
                (HasBits c)
                (elim o as (λ x. Outcome (LhaError rd.Error) (BitStream rd) ℕ) [
                  | ok bytes r ↦
                      refill rd ((2 * h.bits + 1) * 2 ^ (n - h.have - 1)) (n - h.have) bytes r old
                  | err e r ↦ err (io e) (marked_stream rd r h.have h.bits)
                  | panic ↦ panic
                  | out_of_fuel ↦ out_of_fuel
                ])
        by_case g (ok bytes r) (size, are, valid, less) =
            Taken-refilled r h.have h.bits bytes g h.room h.small size are valid
              (omega (arith, h.few)) old refl
        by_case g (err e r) (valid, less) = record {
          have = h.have;
          bits = h.bits;
          form = refl;
          room = h.room;
          small = h.small;
          valid = valid;
          few = omega (arith, h.few);
        }
        by_case g panic p = p
        by_case g out_of_fuel p = p

  -- Over a reader that keeps its documented behaviour: asking a bit stream with c bits at most for
  -- n of them, where n is at most the number w of bits in the type and w at most 64, returns a
  -- number below 2^n, n is then at most c and the stream has c - n bits at most, or it returns an
  -- error and leaves a stream with c bits at most. It never panics.
  pub read_bits-Taken :
      (w n c : ℕ) (s : BitStream rd)
      → n ≤ w
      → w ≤ 64
      → HasBits c s
      → Post (Taken c n) (HasBits c) (read_bits rd w n s)
  unfolding read_bits
  read_bits-Taken w n c s h k b = elim (Bool-cases (n == 0)) [
    | inl none_wanted ↦
        let z : n ≡ 0 = (==_iff _ _).0 none_wanted in
        rw (none_wanted, Post)
          (one-le-pow n 2 (omega arith), HasBits-mono c (c - n) s (omega arith) b, omega arith)
    | inr some_wanted ↦
        let enough : leb n w ≡ true = ground arith in
        let pos = ==_zero-false n some_wanted in
        rw (some_wanted, enough)
          (Post-bind (Taken c n) (Taken c n) (HasBits c) (HasBits c) (next_bits rd n)
            (λ (bits : ℕ). ret (bits % 2 ^ w)) s (next_bits-Taken c n pos (omega arith) s b)
            (λ t j. j)
            (λ bits t taken.
              let fits : bits < 2 ^ w =
                let small = taken.0 in omega (arith, pow-le-pow_right {n = 2} (omega arith) h) in
              rw (mod-eq_of_lt fits) taken))
  ]

  pub read_bit-Taken :
      (c : ℕ) (s : BitStream rd)
      → HasBits c s
      → Post (λ b t. HasBits (c - 1) t × (1 ≤ c)) (HasBits c) (read_bit rd s)
  unfolding read_bit
  read_bit-Taken c s b =
      Post-bind (Taken c 1) (λ b t. HasBits (c - 1) t × (1 ≤ c)) (HasBits c) (HasBits c)
        (next_bits rd 1) _ s (next_bits-Taken c 1 (omega arith) (omega arith) s b) (λ t j. j)
        (λ bits t taken. (taken.1, taken.2))

  -- A single bit, for a walk in a tree.
  pub one_bit-Keeps :
      (c : ℕ) (s : BitStream rd)
      → HasBits c s
      → Post (λ x t. (x < 2) × HasBits c t) (HasBits c) (read_bits rd 64 1 s)
  one_bit-Keeps c s b =
      Post-mono (Taken c 1) (λ x t. (x < 2) × HasBits c t) (HasBits c) (HasBits c)
        (read_bits rd 64 1 s) (read_bits-Taken 64 1 c s (omega arith) (omega arith) b) (λ t j. j)
        (λ x t taken. (taken.0, HasBits-mono (c - 1) c t (omega arith) taken.1))
