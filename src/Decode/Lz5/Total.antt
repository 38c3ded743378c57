-- ===== src/Decode/Lz5/Total.antt =====
-- src/decode/lz5.rs: filling buffers from any reader that keeps its promises.
use rust_delharc.Prelude.{
  ℕ, zero, suc, ◌+◌, ◌-◌, ◌≤◌, ◌<◌, ◌≡◌, inl, inr, Bool-cases, Option, none, some, List, [], ◌∷◌,
  ◌++◌, length, length-append, min, bit_and, bit_or, ◌<<<◌, get_or, ◌==◌, if◌then◌else◌, arith,
}
use native.Mathlib.Nat.{mod-lt}
use rust_delharc.Prelude.Bits.{bit_and_mask}
use rust_delharc.Outcome.{Outcome, ok, err, panic, out_of_fuel, Post}
use rust_delharc.Outcome.Rules.{Post-bind, Post-within, Post-map_err}
use rust_delharc.Error.{LhaError, map_io, io}
use rust_delharc.StubIo.{Read}
use rust_delharc.StubIo.Laws.{IsReader, AreBytes}
use rust_delharc.RingBuf
use rust_delharc.RingBuf.{RingArrayBuf}
use rust_delharc.RingBuf.Window
use rust_delharc.RingBuf.Default.{default-IsValid}
use rust_delharc.RingBuf.Copy.{length-copy_history, iter_from_pos_refines}
use rust_delharc.Decode.Target.{while_target}
use rust_delharc.Decode.Filling.{Fits, Filled, while_target-Post}
use rust_delharc.Decode.Lz5.{
  Lz5Decoder, start_offset, preset, zero_margin, initial_ringbuf, new, read, next_bitmap, literal,
  copy, copy_from_history, fill_step, resume, fill_buffer,
}

push_all-IsValid :
    (r : RingArrayBuf) (bytes : List ℕ)
    → Window.IsValid 12 r
    → Window.IsValid 12 (RingBuf.push_all 4096 r bytes)
unfolding RingBuf.push_all
push_all-IsValid r [] v = v
push_all-IsValid r (b ∷ bytes) v =
    push_all-IsValid (RingBuf.push 4096 r b) bytes (Window.push-IsValid 12 r b v)

set_cursor-IsValid :
    (r : RingArrayBuf) (pos : ℕ)
    → Window.IsValid 12 r
    → Window.IsValid 12 (RingBuf.set_cursor 4096 r pos)
unfolding RingBuf.set_cursor
set_cursor-IsValid r pos v = record {
  full = v.full;
  inside = omega (arith, bit_and_mask 12 pos, mod-lt pos (Window.size-pos 12));
}

zero_margin-IsValid :
    (fuel : ℕ) (r : RingArrayBuf) → Window.IsValid 12 r → Window.IsValid 12 (zero_margin fuel r)
unfolding zero_margin
zero_margin-IsValid zero r v = v
zero_margin-IsValid (suc fuel) r v = elim (Bool-cases (r.cursor == 0)) [
  | inl e ↦ rw e v
  | inr e ↦ rw e (zero_margin-IsValid fuel (RingBuf.push 4096 r 0) (Window.push-IsValid 12 r 0 v))
]

initial_ringbuf-IsValid : Window.IsValid 12 initial_ringbuf
unfolding initial_ringbuf
initial_ringbuf-IsValid =
    let filled = RingBuf.push_all 4096 (RingBuf.spaces 4096) preset in
    let gap = RingBuf.set_cursor 4096 filled start_offset in
    set_cursor-IsValid (zero_margin 4096 gap) start_offset (
      zero_margin-IsValid 4096 gap (
        set_cursor-IsValid filled start_offset
          (push_all-IsValid (RingBuf.spaces 4096) preset (default-IsValid 12).1)))

module _ (rd : Read) (laws : IsReader rd) where
  -- The reader is in a valid state and the window is one of 4096 bytes.
  pub record IsLz5 (d : Lz5Decoder rd) : Type 0 where
    pub reader : laws.Valid d.reader
    pub window : Window.IsValid 12 d.ringbuf

  abbrev Looping : Lz5Decoder rd × ℕ → Type 0
  Looping s = IsLz5 s.0

  bytes_read :
      (n : ℕ) (s : Lz5Decoder rd × ℕ)
      → Looping s
      → Post (λ bytes t. Looping t) Looping (read rd n s)
  bytes_read n s v =
      Post-within
        (λ bytes r.
          (length bytes ≡ n)
          × AreBytes bytes
          × laws.Valid r
          × (laws.left r + length bytes ≤ laws.left s.0.reader))
        (λ bytes t. Looping t) (λ r. laws.Valid r × (laws.left r ≤ laws.left s.0.reader)) Looping
        (λ (x : Lz5Decoder rd × ℕ). x.0.reader)
        (λ (x : Lz5Decoder rd × ℕ) (r : rd.Reader). (record x.0 { reader = r }, x.1))
        (map_io (rd.read_exact n)) s
        (Post-map_err _ _ io (rd.read_exact n) s.0.reader
          (laws.read_exact-Post n s.0.reader v.reader))
        (λ r (h, m). record { reader = h; window = v.window })
        (λ bytes r (size, are, h, m). record { reader = h; window = v.window })

  copied :
      (room pos count : ℕ) (d : Lz5Decoder rd)
      → IsLz5 d
      → let (bytes, d') = copy_from_history rd room pos count d in
        (length bytes ≡ min room count) × IsLz5 d'
  unfolding copy_from_history
  copied room pos count d v = (
    length-copy_history 4096 (min room count) (RingBuf.iter_from_pos 4096 d.ringbuf pos),
    record {
      reader = v.reader;
      window = (iter_from_pos_refines 12 (omega arith) d.ringbuf v.window (min room count) pos).2;
    },
  )

  abbrev Wrote : ℕ → List ℕ → Lz5Decoder rd × ℕ → Type 0
  Wrote room bytes s = Fits room bytes × Looping s

  flags_read :
      (s : Lz5Decoder rd × ℕ) → Looping s → Post (λ u t. Looping t) Looping (next_bitmap rd s)
  unfolding next_bitmap
  flags_read s v = elim (Bool-cases (s.1 == 1)) [
    | inl e ↦ rw (e) (
        Post-bind (λ bytes t. Looping t) (λ u t. Looping t) Looping Looping (read rd 1) _ s
          (bytes_read 1 s v) (λ t j. j) (λ byte t r. r))
    | inr e ↦ rw (e, Post) v
  ]

  literal_read :
      (room : ℕ) (s : Lz5Decoder rd × ℕ)
      → 0 < room
      → Looping s
      → Post (Wrote room) Looping (literal rd s)
  unfolding literal
  literal_read room s h v =
      Post-bind (λ bytes t. Looping t) (Wrote room) Looping Looping (read rd 1) _ s
        (bytes_read 1 s v) (λ t j. j)
        (λ value t r. (
          (omega arith, omega arith),
          record {
            reader = r.reader;
            window = Window.push-IsValid 12 t.0.ringbuf (get_or value 0 0) r.window;
          },
        ))

  copy_read :
      (room : ℕ) (s : Lz5Decoder rd × ℕ)
      → 0 < room
      → Looping s
      → Post (Wrote room) Looping (copy rd room s)
  unfolding copy
  copy_read room s h v =
      Post-bind (λ bytes t. Looping t) (Wrote room) Looping Looping (read rd 2) _ s
        (bytes_read 2 s v) (λ t j. j)
        (λ cmd t r.
          let pos = bit_or (bit_and (get_or cmd 1 0) 0xf0 <<< 4) (get_or cmd 0 0) in
          let count = bit_and (get_or cmd 1 0) 0x0f + 3 in
          let done = copied room pos count t.0 r in
          ((omega (arith, done.0), omega (arith, done.0)), done.1))

  step_fits :
      (room : ℕ) (s : Lz5Decoder rd × ℕ)
      → 0 < room
      → Looping s
      → Post (Wrote room) Looping (fill_step rd room s)
  unfolding fill_step
  step_fits room s h v =
      Post-bind (λ u t. Looping t) (Wrote room) Looping Looping (next_bitmap rd) _ s
        (flags_read s v) (λ t j. j)
        (λ u t r.
          Post-bind (Wrote room) (Wrote room) Looping Looping
            (λ (x : Lz5Decoder rd × ℕ). if bit_and x.1 1 == 1 then literal rd x else copy rd room x)
            _ t (by_flag t r) (λ t j. j) (λ bytes t w. w))
    where
      by_flag :
          (t : Lz5Decoder rd × ℕ)
          → Looping t
          → Post (Wrote room) Looping (if bit_and t.1 1 == 1 then literal rd t else copy rd room t)
      by_flag t r = elim (Bool-cases (bit_and t.1 1 == 1)) [
        | inl e ↦ rw e (literal_read room t h r)
        | inr e ↦ rw e (copy_read room t h r)
      ]

  resumed :
      (n : ℕ) (d : Lz5Decoder rd)
      → IsLz5 d
      → let (bytes, d') = resume rd n d in (length bytes ≤ n) × IsLz5 d'
  unfolding resume
  resumed n d v = by_progress d.copy_progress
    where
      by_progress :
          (p : Option (ℕ × ℕ))
          → let (bytes, d') = elim p as (λ x. List ℕ × Lz5Decoder rd) [
            | some (pos, count) ↦ copy_from_history rd n pos count d
            | none ↦ ([], d)
          ] in
            (length bytes ≤ n) × IsLz5 d'
      by_progress none = (omega arith, v)
      by_progress (some (pos, count)) =
          let done = copied n pos count d v in (omega (arith, done.0), done.1)

  -- A decoder of -lz5- over a reader that keeps its documented behaviour, with a window of 4096
  -- bytes, fills a buffer of any length exactly or returns an error, and is such a decoder again:
  -- it never panics, and the length of the buffer is fuel enough.
  pub fill_buffer-Post :
      (n : ℕ) (d : Lz5Decoder rd) → IsLz5 d → Post (Filled IsLz5 n) IsLz5 (fill_buffer rd n d)
  unfolding fill_buffer
  fill_buffer-Post n d v =
      let (bytes, d') = resume rd n d in
      let (few, j) = resumed n d v in
      by_case (while_target (fill_step rd) n (n - length bytes) (d', d'.bitmap)) (
        while_target-Post Looping Looping (fill_step rd) step_fits n (n - length bytes)
          (d', d'.bitmap) (omega arith) j)
    where
      by_case :
          (o : Outcome (LhaError rd.Error) (Lz5Decoder rd × ℕ) (List ℕ))
          → Post (Filled Looping (n - length (resume rd n d).0)) Looping o
          → Post
              (Filled IsLz5 n)
              IsLz5
              (elim o as (λ x. Outcome (LhaError rd.Error) (Lz5Decoder rd) (List ℕ)) [
                | ok rest (d'', bitmap) ↦
                    ok ((resume rd n d).0 ++ rest) (record d'' { bitmap = bitmap })
                | err e (d'', bitmap) ↦ err e d''
                | panic ↦ panic
                | out_of_fuel ↦ out_of_fuel
              ])
      by_case (ok rest (d'', bitmap)) (e, w) =
          let few = (resumed n d v).0 in
          (
            omega (arith, length-append (resume rd n d).0 rest),
            record { reader = w.reader; window = w.window },
          )
      by_case (err e (d'', bitmap)) w = w
      by_case panic w = w
      by_case out_of_fuel w = w

  pub new-IsLz5 : (r : rd.Reader) → laws.Valid r → IsLz5 (new rd r)
  unfolding new
  new-IsLz5 r h = record { reader = h; window = initial_ringbuf-IsValid }
