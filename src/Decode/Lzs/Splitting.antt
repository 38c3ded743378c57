-- ===== src/Decode/Lzs/Splitting.antt =====
-- src/decode/lzs.rs: to fill one buffer is to fill two, one after the other. A copy that does not
-- fit the first is finished by the next call.
use rust_delharc.Prelude.{
  ℕ, ◌+◌, ◌-◌, ◌^◌, ◌≤◌, ◌<◌, ◌≡◌, refl, sym, ap, inl, inr, Bool-cases, Option-cases, Option, none,
  some, List, [], ◌∷◌, ◌++◌, append_nil, length, min, u16, ltb, ltb→lt, ltb-false→≤, arith,
}
use native.Mathlib.Nat.{mod-mod_of_dvd}
use rust_delharc.Outcome.{Outcome, ok, Prog, ◌>>=◌, ret}
use rust_delharc.Outcome.Rules.{Post-mono}
use rust_delharc.Error.{LhaError}
use rust_delharc.StubIo.{Read}
use rust_delharc.StubIo.Laws.{IsReader}
use rust_delharc.RingBuf
use rust_delharc.RingBuf.{RingArrayBuf}
use rust_delharc.RingBuf.Copy.{two_pow-dvd}
use rust_delharc.RingBuf.Split.{iter_from_pos-split}
use rust_delharc.BitStream
use rust_delharc.Decode.Target.{progress_u16}
use rust_delharc.Decode.Progress.{progress_u16-none, progress_u16-small, progress_u16-add}
use rust_delharc.Decode.Filling.{Fits}
use rust_delharc.Decode.Splitting.{onwards, behind, bind-onwards, Resumes, fill_split}
use rust_delharc.Decode.Lzs.Total.{
  IsLzs, HasCount, Copied, Wrote, Copying, bits_read, flag_read, step_fits, resumed,
}
use rust_delharc.Decode.Lzs.{LzsDecoder, on_bits, copy_from_history, fill_step, resume, fill_buffer}

module _ (rd : Read) where
  abbrev finished : List ℕ → LzsDecoder rd → Outcome (LhaError rd.Error) (LzsDecoder rd) (List ℕ)
  finished x t = ok x t

  -- The progress of a copy keeps 16 bits of the position, more than the window's index has.
  copy_split :
      (m n pos : ℕ) (r : RingArrayBuf)
      → let (first, r') = RingBuf.copy_history 2048 m (RingBuf.iter_from_pos 2048 r pos) in
        let (second, r'') =
          RingBuf.copy_history 2048 n (RingBuf.iter_from_pos 2048 r' (u16 (pos + m))) in
        RingBuf.copy_history 2048 (m + n) (RingBuf.iter_from_pos 2048 r pos)
        ≡ (first ++ second, r'')
  copy_split m n pos r =
      iter_from_pos-split 11 (omega arith) m n pos (u16 (pos + m)) r
        (mod-mod_of_dvd (2 ^ 11) (pos + m) (two_pow-dvd 5 11 16 refl))

  -- A copy with room for `m + n` bytes is one with room for `m` bytes that is then resumed.
  copied_split :
      (m n pos count : ℕ) (d : LzsDecoder rd)
      → count < 2 ^ 16
      → copy_from_history rd (m + n) pos count d
        ≡ onwards (copy_from_history rd m pos count d) (λ x t. behind x (resume rd n t))
  unfolding copy_from_history resume
  copied_split m n pos count d h = elim (Bool-cases (ltb m count)) [
    | inl part ↦
        let more = ltb→lt _ _ part in
        let k = min n (count - m) in
        let first : min m count ≡ m = omega arith in
        let all : min (m + n) count ≡ m + k = omega arith in
        let after : count - (m + k) ≡ count - m - k = omega arith in
        rw
          (
            all,
            first,
            after,
            progress_u16-small (pos + m) (count - m) (omega arith) (omega arith),
            progress_u16-add pos m k (count - m - k),
          )
          (ap
            (λ (p : List ℕ × RingArrayBuf). finished p.0 (record d {
              copy_progress = progress_u16 (pos + (m + k)) (count - m - k);
              ringbuf = p.1;
            }))
            (copy_split m k pos d.ringbuf))
    | inr whole ↦
        let few = ltb-false→≤ _ _ whole in
        let first : min m count ≡ count = omega arith in
        let all : min (m + n) count ≡ count = omega arith in
        let after : count - count ≡ 0 = omega arith in
        rw (all, first, after, progress_u16-none (pos + count) 0 refl)
          (ap
            (λ (x : List ℕ). finished x (record d {
              copy_progress = none;
              ringbuf =
                  (RingBuf.copy_history 2048 count (RingBuf.iter_from_pos 2048 d.ringbuf pos)).1;
            }))
            (sym (append_nil _)))
  ]

  module _ (n : ℕ) (d : LzsDecoder rd) where
    by_progress : Option (ℕ × ℕ) → Outcome (LhaError rd.Error) (LzsDecoder rd) (List ℕ)
    by_progress p = elim p as (λ x. Outcome (LhaError rd.Error) (LzsDecoder rd) (List ℕ)) [
      | some (pos, count) ↦ copy_from_history rd n pos count d
      | none ↦ ret [] d
    ]

    resume-idle : d.copy_progress ≡ none → resume rd n d ≡ ok [] d
    unfolding resume by_progress
    resume-idle e = ap by_progress e

    resume-some :
        (pos count : ℕ)
        → d.copy_progress ≡ some (pos, count)
        → resume rd n d ≡ copy_from_history rd n pos count d
    unfolding resume by_progress
    resume-some pos count e = ap by_progress e

  resume-split :
      (m n : ℕ) (d : LzsDecoder rd)
      → ((pos count : ℕ) → d.copy_progress ≡ some (pos, count) → count < 2 ^ 16)
      → resume rd (m + n) d ≡ onwards (resume rd m d) (λ x t. behind x (resume rd n t))
  resume-split m n d small = elim (Option-cases d.copy_progress) [
    | inl none_left ↦
        rw (resume-idle (m + n) d none_left, resume-idle m d none_left, resume-idle n d none_left)
          refl
    | inr ((pos, k), left) ↦
        rw (resume-some (m + n) d pos k left, resume-some m d pos k left)
          (copied_split m n pos k d (small pos k left))
  ]

  module _ (laws : IsReader rd) (c m n : ℕ) where
    abbrev Idle : LzsDecoder rd → Type 0
    Idle = Copying rd laws c none

    -- The bits of a literal or of a copy in front of what they stand for.
    bits_first :
        (w k : ℕ) (f g : ℕ → Prog (LhaError rd.Error) (LzsDecoder rd) (List ℕ)) (d : LzsDecoder rd)
        → k ≤ w
        → w ≤ 64
        → Idle d
        → ((x : ℕ) (t : LzsDecoder rd)
            → x < 2 ^ k
            → Idle t
            → f x t ≡ onwards (g x t) (λ y u. behind y (resume rd n u)))
        → (on_bits rd (BitStream.read_bits rd w k) >>= f) d
          ≡ onwards
              ((on_bits rd (BitStream.read_bits rd w k) >>= g) d)
              (λ y u. behind y (resume rd n u))
    bits_first w k f g d h h' i step =
        bind-onwards (λ x t. (x < 2 ^ k) × Idle t) (on_bits rd (BitStream.read_bits rd w k)) f g
          (λ y u. behind y (resume rd n u)) d
          (Post-mono (λ x t. (x < 2 ^ k) × Idle t) (λ x t. (x < 2 ^ k) × Idle t) (IsLzs rd laws c)
            (λ t. Unit) (on_bits rd (BitStream.read_bits rd w k) d)
            (bits_read rd laws c none w k d h h' i) (λ t j. tt) (λ x t p. p))
          (λ x t (small, j). step x t small j)

    fill_step-split :
        (d : LzsDecoder rd)
        → Idle d
        → fill_step rd (m + n) d ≡ onwards (fill_step rd m d) (λ x t. behind x (resume rd n t))
    unfolding fill_step
    fill_step-split d i =
        bind-onwards (λ b t. Idle t) (on_bits rd (BitStream.read_bit rd)) _ _
          (λ x t. behind x (resume rd n t)) d
          (Post-mono (λ b t. Idle t) (λ b t. Idle t) (IsLzs rd laws c) (λ t. Unit)
            (on_bits rd (BitStream.read_bit rd) d) (flag_read rd laws c none d i) (λ t j. tt)
            (λ b t p. p))
          (λ bit t j. elim (Bool-cases bit) [
            | inl lit ↦ rw lit (
                bits_first 8 8 _ _ t (omega arith) (omega arith) j (λ value u small (v, idle).
                  ap (behind (value ∷ [])) (
                    sym (
                      resume-idle n (record u { ringbuf = RingBuf.push 2048 u.ringbuf value })
                        idle))))
            | inr copy ↦ rw copy (
                bits_first 64 11 _ _ t (omega arith) (omega arith) j (λ pos u low k.
                  bits_first 64 4 _ _ u (omega arith) (omega arith) k
                    (λ count x small l. copied_split m n pos (count + 2) x (omega arith))))
          ])

  module _ (laws : IsReader rd) (c : ℕ) where
    abbrev Fit : LzsDecoder rd → Type 0
    Fit d = IsLzs rd laws c d × HasCount rd laws c d

    fill_buffer-Resumes : Resumes (resume rd) (fill_step rd) Fit (λ d. d.copy_progress ≡ none)
    fill_buffer-Resumes = record {
      resumed = λ n d i.
          Post-mono (λ x t. (length x ≤ n) × Copied rd laws c n x t)
            (λ x t. (length x ≤ n) × Fit t × (length x < n → t.copy_progress ≡ none))
            (IsLzs rd laws c) (λ t. Unit) (resume rd n d) (resumed rd laws c n d i.0) (λ t j. tt)
            (λ x t (most, (v, part, count)). (most, (v, count), part));
      stepped = λ n d h i idle.
          Post-mono (Wrote rd laws c none n)
            (λ x t. Fits n x × Fit t × (length x < n → t.copy_progress ≡ none)) (IsLzs rd laws c)
            (λ t. Unit) (fill_step rd n d) (step_fits rd laws c none n d h (i.0, idle)) (λ t j. tt)
            (λ x t (fits, v, after).
              let (v', part, count) = after refl in (fits, (v', count), part));
      idle = resume-idle;
      resume_split = λ m n d i. resume-split m n d i.1;
      step_split = λ m n d h i idle. fill_step-split laws c m n d (i.0, idle);
    }

    -- A decoder of -lzs- over a reader that keeps its documented behaviour, with a stream that can
    -- be read, a valid window of 2048 bytes and an unfinished copy, if there is one, that counts 16
    -- bits: filling a buffer of m + n bytes is filling one of m bytes and then one of n. The bytes
    -- are the same, and so are the error and the decoder that is left.
    pub lzs_fill_buffer-split :
        (m n : ℕ) (d : LzsDecoder rd)
        → IsLzs rd laws c d
        → HasCount rd laws c d
        → fill_buffer rd (m + n) d
          ≡ (do first ← fill_buffer rd m; second ← fill_buffer rd n; ret (first ++ second)) d
    unfolding fill_buffer
    lzs_fill_buffer-split m n d v count =
        fill_split (resume rd) (fill_step rd) Fit (λ d. d.copy_progress ≡ none) fill_buffer-Resumes
          m n d (v, count)
