-- ===== src/BitStream/Stream.antt =====
-- src/bitstream.rs: `next_bits` on bytes in memory takes the highest bits off the number that the
-- bits still to be read make.
use rust_delharc.Prelude.{
  ℕ, ◌+◌, ◌-◌, ◌*◌, ◌/◌, ◌%◌, ◌^◌, ◌≤◌, ◌<◌, ◌≡◌, refl, sym, ap, ◌∙◌, inl, inr, Bool-cases, length,
  take, drop, min, All-drop, length-take, length-drop, take-append-drop, arith, ltb, ltb→lt,
  ltb-false→≤,
}
use mathlib.Core.Path.{ap₂}
use native.Mathlib.Nat.{one-le-pow, mod-lt, div-add-mod', mul-le-mul_right}
use rust_delharc.Outcome.{ok}
use rust_delharc.StubIo.{slice}
use rust_delharc.BitStream.{BitStream, next_bits}
use rust_delharc.BitStream.Marker.{two_pow-add, fields-div, fields-mod}
use rust_delharc.BitStream.Refill.{be, be-lt, be-append}
use rust_delharc.BitStream.Refine.{Holds, count, value, next_bits-buffered, next_bits-filled}

-- A number of three fields, cut behind the first.
module _ (q r b A S : ℕ) (hr : r < A) (hb : b < S) where
  low_fields : r * S + b < A * S
  low_fields = omega (arith, mul-le-mul_right {m = r + 1} {n = A} S (omega arith))

  pub cut : (x : ℕ) → x ≡ q * (A * S) + (r * S + b) → (x / (A * S) ≡ q) × (x % (A * S) ≡ r * S + b)
  cut x e = (
    ap (λ (t : ℕ). t / (A * S)) e ∙ fields-div q (r * S + b) (A * S) low_fields,
    ap (λ (t : ℕ). t % (A * S)) e ∙ fields-mod q (r * S + b) (A * S) low_fields,
  )

-- What is left of a stream whose bits make `x`, `c` of them, once `n` of them are taken.
pub record Took (s : BitStream slice) (x c n : ℕ) : Type 0 where
  pub stream : BitStream slice
  pub have : ℕ
  pub bits : ℕ
  pub result : next_bits slice n s ≡ ok (x / 2 ^ (c - n)) stream
  pub holds : Holds stream have bits
  pub fewer : count stream have ≡ c - n
  pub rest : value stream bits ≡ x % 2 ^ (c - n)

module _ (s : BitStream slice) (have v n : ℕ) (holds : Holds s have v) (pos : 0 < n)
    (fits : n ≤ 64) where
  Took-buffered : n ≤ have → Took s (value s v) (count s have) n
  Took-buffered h =
      let m = 8 * length s.inner in
      let a = have - n in
      let A-pos : 0 < 2 ^ a = one-le-pow a 2 (omega arith) in
      let low = mod-lt v A-pos in
      let weight : 2 ^ (count s have - n) ≡ 2 ^ a * 2 ^ m =
        let e : have + m - n ≡ a + m = omega arith in rw e (two_pow-add a m) in
      let (top, rest) =
        cut (v / 2 ^ a) (v % 2 ^ a) (be s.inner) (2 ^ a) (2 ^ m) low (be-lt s.inner holds.bytes)
          (value s v)
          (ap (λ (x : ℕ). x * 2 ^ m + be s.inner) (sym (div-add-mod' v (2 ^ a))) ∙ omega arith) in
      record {
        stream = record { inner = s.inner; bits_buf = (2 * (v % 2 ^ a) + 1) * 2 ^ (63 - a) };
        have = a;
        bits = v % 2 ^ a;
        result = next_bits-buffered s have v n holds pos fits h ∙ (rw (weight, top) refl);
        holds = record {
          word = refl;
          room = omega (arith, holds.room);
          small = low;
          bytes = holds.bytes;
        };
        fewer = omega arith;
        rest = rw (weight, rest) refl;
      }

  Took-filled : have < n → n ≤ count s have → Took s (value s v) (count s have) n
  Took-filled h g =
      let k = min 8 (length s.inner) in
      let bytes = take k s.inner in
      let left = drop k s.inner in
      let e = have + 8 * length bytes - n in
      let size : length bytes ≡ k = omega (arith, length-take k s.inner) in
      let size' : length left ≡ length s.inner - k = omega (arith, length-drop k s.inner) in
      let E-pos : 0 < 2 ^ e = one-le-pow e 2 (omega arith) in
      let low = mod-lt (be bytes) E-pos in
      let all_left = All-drop (λ b. b < 256) k s.inner holds.bytes in
      let weight : 2 ^ (count s have - n) ≡ 2 ^ e * 2 ^ (8 * length left) =
        let w : count s have - n ≡ e + 8 * length left = omega arith in
        rw w (two_pow-add e (8 * length left)) in
      let all_weight : 2 ^ (8 * length s.inner) ≡ 2 ^ (n - have) * 2 ^ e * 2 ^ (8 * length left) =
        let w : 8 * length s.inner ≡ n - have + e + 8 * length left = omega arith in
        rw w (
          two_pow-add (n - have + e) (8 * length left)
          ∙ ap (λ (t : ℕ). t * 2 ^ (8 * length left)) (two_pow-add (n - have) e)) in
      let bytes_value : be s.inner
          ≡ (be bytes / 2 ^ e * 2 ^ e + be bytes % 2 ^ e) * 2 ^ (8 * length left) + be left =
        ap be (sym (take-append-drop k s.inner))
        ∙ be-append bytes left
        ∙ ap (λ (x : ℕ). x * 2 ^ (8 * length left) + be left)
            (sym (div-add-mod' (be bytes) (2 ^ e))) in
      let (top, rest) =
        cut (v * 2 ^ (n - have) + be bytes / 2 ^ e) (be bytes % 2 ^ e) (be left) (2 ^ e)
          (2 ^ (8 * length left)) low (be-lt left all_left) (value s v)
          (ap₂ (λ (w b : ℕ). v * w + b) all_weight bytes_value ∙ omega arith) in
      record {
        stream = record { inner = left; bits_buf = (2 * (be bytes % 2 ^ e) + 1) * 2 ^ (63 - e) };
        have = e;
        bits = be bytes % 2 ^ e;
        result = next_bits-filled s have v n holds pos fits h g ∙ (rw (weight, top) refl);
        holds = record { word = refl; room = omega arith; small = low; bytes = all_left };
        fewer = omega arith;
        rest = rw (weight, rest) refl;
      }

  -- On bytes in memory, with a word that holds up to 63 bits and its marker: if 1 to 64 bits are
  -- asked for and there are so many in the word and the bytes, `next_bits` returns the highest of
  -- them, of the number that all bits make, and leaves a stream of that form whose bits are the
  -- others.
  pub next_bits-Took : n ≤ count s have → Took s (value s v) (count s have) n
  next_bits-Took g = elim (Bool-cases (ltb have n)) [
    | inl empty ↦ Took-filled (ltb→lt have n empty) g
    | inr full ↦ Took-buffered (ltb-false→≤ have n full)
  ]
