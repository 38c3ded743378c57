-- ===== src/Decode/Lhv2/Splitting.antt =====
-- src/decode/lhv2.rs: to fill one buffer is to fill two, one after the other. A copy that does not
-- fit the first is finished by the next call.
use rust_delharc.Prelude.{
  ℕ, ◌+◌, ◌-◌, ◌*◌, ◌^◌, ◌≤◌, ◌<◌, ◌≡◌, refl, sym, ap, inl, inr, Bool-cases, Option-cases, Option,
  none, some, List, [], ◌∷◌, ◌++◌, append_nil, length, min, u8, u32, ltb, leb, ltb→lt, ltb-false→≤,
  arith,
}
use mathlib.Core.Path.{subst}
use native.Mathlib.Nat.{mod-mod_of_dvd}
use rust_delharc.Outcome.{Outcome, ok, ◌>>=◌, ret}
use rust_delharc.Outcome.Rules.{Yields-mono}
use rust_delharc.Error.{LhaError}
use rust_delharc.StubIo.{Read}
use rust_delharc.StubIo.Laws.{IsReader}
use rust_delharc.RingBuf
use rust_delharc.RingBuf.{RingArrayBuf}
use rust_delharc.RingBuf.Window
use rust_delharc.RingBuf.Copy.{two_pow-dvd}
use rust_delharc.RingBuf.Split.{iter_from_offset-split}
use rust_delharc.Decode.Target.{progress_u32}
use rust_delharc.Decode.Progress.{progress_u32-none, progress_u32-small, progress_u32-u32}
use rust_delharc.Decode.Filling.{Fits}
use rust_delharc.Decode.Splitting.{onwards, behind, bind-onwards, Resumes, fill_split}
use rust_delharc.Decode.Lhv2.Trees.{Config, window_size, LhaV2Decoder}
use rust_delharc.Decode.Lhv2.Reads.{entry_read}
use rust_delharc.Decode.Lhv2.Blocks.{HasTrees}
use rust_delharc.Decode.Lhv2.Total.{
  IsConfig, IsLhv2, HasCount, Copied, Wrote, Block, blocks_begun, offset_read, step_fits, resumed,
}
use rust_delharc.Decode.Lhv2.{
  begin_blocks, read_command, read_offset, copy_from_history, fill_step, resume, fill_buffer,
}

module _ (rd : Read) (laws : IsReader rd) (cfg : Config) (bounds : IsConfig cfg) where
  abbrev finished :
      List ℕ → LhaV2Decoder rd → Outcome (LhaError rd.Error) (LhaV2Decoder rd) (List ℕ)
  finished x t = ok x t

  -- The progress of a copy keeps 32 bits of the offset, more than the window's index has.
  copy_split :
      (m n offset : ℕ) (r : RingArrayBuf)
      → Window.IsValid (cfg.history_bits - 1) r
      → let (first, r') =
          RingBuf.copy_history
            (window_size cfg)
            m
            (RingBuf.iter_from_offset (window_size cfg) r offset) in
        let (second, r'') =
          RingBuf.copy_history
            (window_size cfg)
            n
            (RingBuf.iter_from_offset (window_size cfg) r' (u32 offset)) in
        RingBuf.copy_history
          (window_size cfg)
          (m + n)
          (RingBuf.iter_from_offset (window_size cfg) r offset)
        ≡ (first ++ second, r'')
  copy_split m n offset r v =
      let w = cfg.history_bits - 1 in
      let few = bounds.history in
      let size : 2 ^ w ≡ window_size cfg = omega arith in
      let place = mod-mod_of_dvd (2 ^ w) offset (two_pow-dvd (32 - w) w 32 (omega arith)) in
      subst
        (λ (N : ℕ).
          let (first, r') = RingBuf.copy_history N m (RingBuf.iter_from_offset N r offset) in
          let (second, r'') =
            RingBuf.copy_history N n (RingBuf.iter_from_offset N r' (u32 offset)) in
          RingBuf.copy_history N (m + n) (RingBuf.iter_from_offset N r offset)
          ≡ (first ++ second, r''))
        size (iter_from_offset-split w (omega arith) m n offset (u32 offset) r v.inside place)

  -- A copy with room for `m + n` bytes is one with room for `m` bytes that is then resumed.
  copied_split :
      (m n offset count : ℕ) (d : LhaV2Decoder rd)
      → Window.IsValid (cfg.history_bits - 1) d.ringbuf
      → count < 2 ^ 32
      → copy_from_history cfg rd (m + n) offset count d
        ≡ onwards (copy_from_history cfg rd m offset count d) (λ x t. behind x (resume cfg rd n t))
  unfolding copy_from_history resume
  copied_split m n offset count d v h = elim (Bool-cases (ltb m count)) [
    | inl part ↦
        let more = ltb→lt _ _ part in
        let first : min m count ≡ m = omega arith in
        let left : count - m ≡ count - min m count = omega arith in
        let all : min (m + n) count ≡ m + min n (count - m) = omega arith in
        let after : count - (m + min n (count - m)) ≡ count - m - min n (count - m) = omega arith in
        rw
          (
            all,
            first,
            after,
            progress_u32-small offset (count - m) (omega arith) (omega arith),
            progress_u32-u32 offset (count - m - min n (count - m)),
          )
          (ap
            (λ (p : List ℕ × RingArrayBuf). finished p.0 (record d {
              copy_progress = progress_u32 offset (count - m - min n (count - m));
              ringbuf = p.1;
            }))
            (copy_split m (min n (count - m)) offset d.ringbuf v))
    | inr whole ↦
        let few = ltb-false→≤ _ _ whole in
        let first : min m count ≡ count = omega arith in
        let all : min (m + n) count ≡ count = omega arith in
        let after : count - count ≡ 0 = omega arith in
        rw (all, first, after, progress_u32-none offset 0 refl)
          (ap
            (λ (x : List ℕ). finished x (record d {
              copy_progress = none;
              ringbuf =
                  (RingBuf.copy_history (window_size cfg) count
                    (RingBuf.iter_from_offset (window_size cfg) d.ringbuf offset)).1;
            }))
            (sym (append_nil _)))
  ]

  module _ (n : ℕ) (d : LhaV2Decoder rd) where
    by_progress : Option (ℕ × ℕ) → Outcome (LhaError rd.Error) (LhaV2Decoder rd) (List ℕ)
    by_progress p = elim p as (λ x. Outcome (LhaError rd.Error) (LhaV2Decoder rd) (List ℕ)) [
      | some (offset, count) ↦ copy_from_history cfg rd n offset count d
      | none ↦ ok [] d
    ]

    resume-idle : d.copy_progress ≡ none → resume cfg rd n d ≡ ok [] d
    unfolding resume by_progress
    resume-idle e = ap by_progress e

    resume-some :
        (offset count : ℕ)
        → d.copy_progress ≡ some (offset, count)
        → resume cfg rd n d ≡ copy_from_history cfg rd n offset count d
    unfolding resume by_progress
    resume-some offset count e = ap by_progress e

  resume-split :
      (m n : ℕ) (d : LhaV2Decoder rd)
      → Window.IsValid (cfg.history_bits - 1) d.ringbuf
      → HasCount rd laws cfg bounds d
      → resume cfg rd (m + n) d ≡ onwards (resume cfg rd m d) (λ x t. behind x (resume cfg rd n t))
  unfolding resume
  resume-split m n d v count = elim (Option-cases d.copy_progress) [
    | inl none_left ↦
        rw (resume-idle (m + n) d none_left, resume-idle m d none_left, resume-idle n d none_left)
          refl
    | inr ((offset, k), left) ↦
        rw (resume-some (m + n) d offset k left, resume-some m d offset k left)
          (copied_split m n offset k d v (count offset k left))
  ]

  fill_step-split :
      (blocks c m n : ℕ) (d : LhaV2Decoder rd)
      → c < 16 * blocks
      → IsLhv2 rd laws cfg bounds c d
      → d.copy_progress ≡ none
      → fill_step cfg rd blocks (m + n) d
        ≡ onwards (fill_step cfg rd blocks m d) (λ x t. behind x (resume cfg rd n t))
  unfolding fill_step read_command
  fill_step-split blocks c m n d few v e =
      let w = cfg.history_bits - 1 in
      bind-onwards (λ u t. Block rd laws cfg bounds none c t × (0 < t.remaining_commands))
        (begin_blocks cfg rd blocks) _ _ (λ x t. behind x (resume cfg rd n t)) d
        (blocks_begun rd laws cfg bounds none blocks c d few e v)
        (λ u t (b, some_left).
          bind-onwards (λ x t. (x < 512) × Block rd laws cfg bounds none c t) (read_command cfg rd)
            _ _ (λ x t. behind x (resume cfg rd n t))
            (record t { remaining_commands = t.remaining_commands - 1 })
            (entry_read rd laws (HasTrees rd laws w none) (λ d b h. h) 512 t.command_tree c
              (record t { remaining_commands = t.remaining_commands - 1 }) b.kept.1
              (record { stream = b.stream; kept = b.kept }))
            (λ code t1 (low, r). elim (Bool-cases (leb code 0xff)) [
              | inl lit ↦ rw lit (
                  ap (behind (u8 code ∷ [])) (
                    sym (
                      resume-idle n
                        (record t1 {
                          ringbuf = RingBuf.push (window_size cfg) t1.ringbuf (u8 code);
                        })
                        r.kept.0.1)))
              | inr copy ↦ rw copy (
                  bind-onwards (λ x t. Block rd laws cfg bounds none c t) (read_offset cfg rd) _ _
                    (λ x t. behind x (resume cfg rd n t)) t1
                    (offset_read rd laws cfg bounds none c t1 r)
                    (λ offset t2 r2.
                      copied_split m n offset (code - 0x100 + 3) t2 r2.kept.0.0 (omega arith)))
            ]))

  module _ (blocks c : ℕ) (few : c < 16 * blocks) where
    abbrev Fit : LhaV2Decoder rd → Type 0
    Fit d = IsLhv2 rd laws cfg bounds c d × HasCount rd laws cfg bounds d

    fill_buffer-Resumes :
        Resumes (resume cfg rd) (fill_step cfg rd blocks) Fit (λ d. d.copy_progress ≡ none)
    fill_buffer-Resumes = record {
      resumed = λ n d i.
          Yields-mono (λ x t. (length x ≤ n) × Copied rd laws cfg bounds c n x t)
            (λ x t. (length x ≤ n) × Fit t × (length x < n → t.copy_progress ≡ none))
            (resume cfg rd n d) (resumed rd laws cfg bounds c n d i.0)
            (λ x t (most, (v, part, count)). (most, (v, count), part));
      stepped = λ n d h i idle.
          Yields-mono (Wrote rd laws cfg bounds none n c)
            (λ x t. Fits n x × Fit t × (length x < n → t.copy_progress ≡ none))
            (fill_step cfg rd blocks n d)
            (step_fits rd laws cfg bounds none blocks c n d few h idle i.0)
            (λ x t (fits, v, after).
              let (v', part, count) = after refl in (fits, (v', count), part));
      idle = resume-idle;
      resume_split = λ m n d i. resume-split m n d i.0.window i.1;
      step_split = λ m n d h i idle. fill_step-split blocks c m n d few i.0 idle;
    }

    -- A decoder of -lh4- to -lh7- or -lhx- that is fit to decode a stream of at most c bits, with
    -- fuel for more than c / 16 blocks for a command, over a reader that keeps its documented
    -- behaviour, and whose unfinished copy, if there is one, counts 32 bits: filling a buffer of m
    -- + n bytes is filling one of m bytes and then one of n. The bytes are the same, and so are the
    -- error and the decoder that is left.
    pub fill_buffer-split :
        (m n : ℕ) (d : LhaV2Decoder rd)
        → IsLhv2 rd laws cfg bounds c d
        → HasCount rd laws cfg bounds d
        → fill_buffer cfg rd blocks (m + n) d
          ≡ (do
            first ← fill_buffer cfg rd blocks m
            second ← fill_buffer cfg rd blocks n
            ret (first ++ second))
              d
    unfolding fill_buffer
    fill_buffer-split m n d v count =
        fill_split (resume cfg rd) (fill_step cfg rd blocks) Fit (λ d. d.copy_progress ≡ none)
          fill_buffer-Resumes m n d (v, count)
