-- ===== src/Decode/Lzs/Total.antt =====
-- src/decode/lzs.rs: the decoder of `-lzs-` on any reader that keeps its promises.
use rust_delharc.Prelude.{
  ℕ, ◌+◌, ◌-◌, ◌*◌, ◌^◌, ◌≤◌, ◌<◌, ◌≡◌, refl, ◌∙◌, Bool, true, false, Option, none, some, List, [],
  ◌∷◌, ◌++◌, length, length-append, length-replicate, min, arith,
}
use rust_delharc.Outcome.{Outcome, Prog, Post, ◌>>=◌, ◌>>◌, ret, modify}
use rust_delharc.Outcome.Rules.{Post-bind, Post-mono, Post-within}
use rust_delharc.Error.{LhaError}
use rust_delharc.StubIo.{Read}
use rust_delharc.StubIo.Laws.{IsReader}
use rust_delharc.RingBuf
use rust_delharc.RingBuf.{HistoryIter}
use rust_delharc.RingBuf.Window
use rust_delharc.RingBuf.Copy.{length-copy_history, iter_from_pos_refines}
use rust_delharc.BitStream
use rust_delharc.BitStream.{BitStream}
use rust_delharc.BitStream.Total.{
  HasBits, HasBits-mono, Taken, new-HasBits, read_bits-Taken, read_bit-Taken,
}
use rust_delharc.Decode.Lzs.{
  LzsDecoder, on_bits, new, copy_from_history, fill_step, resume, fill_buffer,
}
use rust_delharc.Decode.Target.{while_target}
use rust_delharc.Decode.Progress.{progress_u16-none, progress_u16-lt}
use rust_delharc.Decode.Filling.{Fits, Filled, while_target-Post}

module _ (rd : Read) (laws : IsReader rd) (c : ℕ) where
  -- The bits can be read, `c` of them at most, and the window is one of 2048 bytes.
  pub record IsLzs (d : LzsDecoder rd) : Type 0 where
    pub stream : HasBits rd laws c d.bit_reader
    pub window : Window.IsValid 11 d.ringbuf

  -- The progress of a copy has 16 bits.
  abbrev pub HasCount : LzsDecoder rd → Type 0
  HasCount d = (pos count : ℕ) → d.copy_progress ≡ some (pos, count) → count < 2 ^ 16

  -- After a call that writes `bytes`: a copy is left unfinished only if they fill the room.
  abbrev pub Copied : ℕ → List ℕ → LzsDecoder rd → Type 0
  Copied room bytes t = IsLzs t × (length bytes < room → t.copy_progress ≡ none) × HasCount t

  abbrev pub Wrote : Option (ℕ × ℕ) → ℕ → List ℕ → LzsDecoder rd → Type 0
  Wrote p n bytes t = Fits n bytes × IsLzs t × (p ≡ none → Copied n bytes t)

  none-HasCount : (d : LzsDecoder rd) → d.copy_progress ≡ none → HasCount d
  none-HasCount d e pos count f = cc

  copied :
      (room pos count : ℕ) (d : LzsDecoder rd)
      → IsLzs d
      → Post
          (λ bytes t. (length bytes ≡ min room count) × Copied room bytes t)
          IsLzs
          (copy_from_history rd room pos count d)
  unfolding copy_from_history
  copied room pos count d v =
      let n = min room count in
      let wrote = length-copy_history 2048 n (RingBuf.iter_from_pos 2048 d.ringbuf pos) in
      (
        wrote,
        (
          record {
            stream = v.stream;
            window = (iter_from_pos_refines 11 (omega arith) d.ringbuf v.window n pos).2;
          },
          (λ part. progress_u16-none (pos + n) (count - n) (omega arith)),
          λ o k e. progress_u16-lt (pos + n) (count - n) o k e,
        ),
      )

  -- A decoder whose copy has the given progress.
  abbrev pub Copying : Option (ℕ × ℕ) → LzsDecoder rd → Type 0
  Copying p d = IsLzs d × (d.copy_progress ≡ p)

  pub bits_read :
      (p : Option (ℕ × ℕ)) (w n : ℕ) (d : LzsDecoder rd)
      → n ≤ w
      → w ≤ 64
      → Copying p d
      → Post (λ x t. (x < 2 ^ n) × Copying p t) IsLzs (on_bits rd (BitStream.read_bits rd w n) d)
  bits_read p w n d h k (v, e) =
      Post-within (Taken rd laws c n) (λ x t. (x < 2 ^ n) × Copying p t) (HasBits rd laws c) IsLzs
        (λ (x : LzsDecoder rd). x.bit_reader)
        (λ (x : LzsDecoder rd) (b : BitStream rd). record x { bit_reader = b })
        (BitStream.read_bits rd w n) d (read_bits-Taken rd laws w n c d.bit_reader h k v.stream)
        (λ t j. record { stream = j; window = v.window })
        (λ x t taken. (
          taken.0,
          (
            record {
              stream = HasBits-mono rd laws (c - n) c t (omega arith) taken.1;
              window = v.window;
            },
            e,
          ),
        ))

  pub flag_read :
      (p : Option (ℕ × ℕ)) (d : LzsDecoder rd)
      → Copying p d
      → Post (λ b t. Copying p t) IsLzs (on_bits rd (BitStream.read_bit rd) d)
  flag_read p d (v, e) =
      Post-within (λ b t. HasBits rd laws (c - 1) t × (1 ≤ c)) (λ b t. Copying p t)
        (HasBits rd laws c) IsLzs (λ (x : LzsDecoder rd). x.bit_reader)
        (λ (x : LzsDecoder rd) (b : BitStream rd). record x { bit_reader = b })
        (BitStream.read_bit rd) d (read_bit-Taken rd laws c d.bit_reader v.stream)
        (λ t j. record { stream = j; window = v.window })
        (λ x t taken. (
          record {
            stream = HasBits-mono rd laws (c - 1) c t (omega arith) taken.0;
            window = v.window;
          },
          e,
        ))

  pub step_fits :
      (p : Option (ℕ × ℕ)) (room : ℕ) (d : LzsDecoder rd)
      → 0 < room
      → Copying p d
      → Post (Wrote p room) IsLzs (fill_step rd room d)
  unfolding fill_step
  step_fits p room d h v =
      Post-bind (λ b t. Copying p t) (Wrote p room) IsLzs IsLzs (on_bits rd (BitStream.read_bit rd))
        _ d (flag_read p d v) (λ t j. j) by_bit
    where
      literal :
          (t : LzsDecoder rd)
          → Copying p t
          → Post (Wrote p room) IsLzs (
              (on_bits rd (BitStream.read_bits rd 8 8) >>= λ value.
              modify
                (λ (x : LzsDecoder rd). record x { ringbuf = RingBuf.push 2048 x.ringbuf value })
              >> ret (value ∷ []))
                t)
      literal t j =
          Post-bind (λ x t. (x < 2 ^ 8) × Copying p t) (Wrote p room) IsLzs IsLzs
            (on_bits rd (BitStream.read_bits rd 8 8)) _ t
            (bits_read p 8 8 t (omega arith) (omega arith) j) (λ t j. j)
            (λ value u (small, (k, same)).
              let u' = record u { ringbuf = RingBuf.push 2048 u.ringbuf value } in
              let next : IsLzs u' = record {
                stream = k.stream;
                window = Window.push-IsValid 11 u.ringbuf value k.window;
              } in
              (
                (omega arith, omega arith),
                next,
                λ q. (next, (λ part. same ∙ q), none-HasCount u' (same ∙ q)),
              ))

      copy :
          (t : LzsDecoder rd)
          → Copying p t
          → Post (Wrote p room) IsLzs (
              (on_bits rd (BitStream.read_bits rd 64 11) >>= λ pos.
              on_bits rd (BitStream.read_bits rd 64 4) >>= λ count.
              copy_from_history rd room pos (count + 2))
                t)
      copy t j =
          Post-bind (λ x t. (x < 2 ^ 11) × Copying p t) (Wrote p room) IsLzs IsLzs
            (on_bits rd (BitStream.read_bits rd 64 11)) _ t
            (bits_read p 64 11 t (omega arith) (omega arith) j) (λ t j. j)
            (λ pos u (low, k).
              Post-bind (λ x t. (x < 2 ^ 4) × Copying p t) (Wrote p room) IsLzs IsLzs
                (on_bits rd (BitStream.read_bits rd 64 4)) _ u
                (bits_read p 64 4 u (omega arith) (omega arith) k) (λ t j. j)
                (λ count x (small, (l, same)).
                  Post-mono (λ bytes t. (length bytes ≡ min room (count + 2)) × Copied room bytes t)
                    (Wrote p room) IsLzs IsLzs (copy_from_history rd room pos (count + 2) x)
                    (copied room pos (count + 2) x l) (λ t j. j)
                    (λ bytes t (e, m). ((omega arith, omega arith), m.0, λ q. m))))

      by_bit :
          (bit : Bool) (t : LzsDecoder rd)
          → Copying p t
          → Post (Wrote p room) IsLzs (
              (elim bit as (λ x. Prog (LhaError rd.Error) (LzsDecoder rd) (List ℕ)) [
                | true ↦
                    (on_bits rd (BitStream.read_bits rd 8 8) >>= λ value.
                    modify (λ (x : LzsDecoder rd). record x {
                      ringbuf = RingBuf.push 2048 x.ringbuf value;
                    })
                    >> ret (value ∷ []))
                | false ↦
                    (on_bits rd (BitStream.read_bits rd 64 11) >>= λ pos.
                    on_bits rd (BitStream.read_bits rd 64 4) >>= λ count.
                    copy_from_history rd room pos (count + 2))
              ])
                t)
      by_bit true t j = literal t j
      by_bit false t j = copy t j

  pub resumed :
      (n : ℕ) (d : LzsDecoder rd)
      → IsLzs d
      → Post (λ bytes t. (length bytes ≤ n) × Copied n bytes t) IsLzs (resume rd n d)
  unfolding resume
  resumed n d v = by_progress d.copy_progress refl
    where
      by_progress :
          (p : Option (ℕ × ℕ))
          → d.copy_progress ≡ p
          → Post
              (λ bytes t. (length bytes ≤ n) × Copied n bytes t)
              IsLzs
              (elim p as (λ x. Outcome (LhaError rd.Error) (LzsDecoder rd) (List ℕ)) [
                | some (pos, count) ↦ copy_from_history rd n pos count d
                | none ↦ ret [] d
              ])
      by_progress none e = (omega arith, (v, (λ part. e), none-HasCount d e))
      by_progress (some (pos, count)) e =
          Post-mono (λ bytes t. (length bytes ≡ min n count) × Copied n bytes t)
            (λ bytes t. (length bytes ≤ n) × Copied n bytes t) IsLzs IsLzs
            (copy_from_history rd n pos count d) (copied n pos count d v) (λ t j. j)
            (λ bytes t (e, m). (omega arith, m))

  -- A decoder of -lzs- over a reader that keeps its documented behaviour, with a stream that can be
  -- read and a valid window of 2048 bytes, fills a buffer of any length exactly or returns an
  -- error, and is such a decoder again: it never panics, and the length of the buffer is fuel
  -- enough.
  pub fill_buffer-Keeps :
      (n : ℕ) (d : LzsDecoder rd) → IsLzs d → Post (Filled IsLzs n) IsLzs (fill_buffer rd n d)
  unfolding fill_buffer
  fill_buffer-Keeps n d v =
      Post-bind (λ bytes t. (length bytes ≤ n) × Copied n bytes t) (Filled IsLzs n) IsLzs IsLzs
        (resume rd n) _ d (resumed n d v) (λ t j. j)
        (λ bytes t (few, (j, part, count)).
          Post-bind (Filled IsLzs (n - length bytes)) (Filled IsLzs n) IsLzs IsLzs
            (while_target (fill_step rd) n (n - length bytes)) (λ rest. ret (bytes ++ rest)) t
            (while_target-Post IsLzs IsLzs (fill_step rd)
              (λ left s h i.
                Post-mono (Wrote s.copy_progress left) (λ bytes t. Fits left bytes × IsLzs t) IsLzs
                  IsLzs (fill_step rd left s) (step_fits s.copy_progress left s h (i, refl))
                  (λ t j. j) (λ bytes t (fits, k, after). (fits, k)))
              n (n - length bytes) t (omega arith) j)
            (λ t j. j) (λ rest u (e, k). (omega (arith, length-append bytes rest), k)))

-- A new decoder of -lzs- over a reader that is in a valid state has a stream that can be read, with
-- eight bits at most for each byte that is left, and a valid window of 2048 bytes.
pub new-IsLzs :
    (rd : Read) (laws : IsReader rd) (r : rd.Reader)
    → laws.Valid r
    → IsLzs rd laws (8 * laws.left r) (new rd r)
unfolding new RingBuf.set_cursor RingBuf.spaces
new-IsLzs rd laws r h = record {
  stream = new-HasBits rd laws r h;
  window = record { full = length-replicate {A = ℕ} 2048 b' '; inside = omega arith };
}
