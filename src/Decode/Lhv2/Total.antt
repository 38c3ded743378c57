-- ===== src/Decode/Lhv2/Total.antt =====
-- src/decode/lhv2.rs: filling buffers from any reader that keeps its promises.
use rust_delharc.Prelude.{
  ℕ, zero, suc, ◌+◌, ◌-◌, ◌*◌, ◌^◌, ◌≤◌, ◌<◌, ◌≡◌, refl, ◌∙◌, inl, inr, Bool-cases, Option, none,
  some, List, [], ◌++◌, length, length-append, length-replicate, min, u8, bit_or, ◌<<<◌, ltb, leb,
  lt→ltb, ◌==◌, ==_zero-false, arith,
}
use mathlib.Core.Path.{subst}
use native.Mathlib.Nat.{one-le-pow}
use rust_delharc.Outcome.{Outcome, ok, Yields, Post, ret}
use rust_delharc.Outcome.Rules.{Yields-bind, Yields-mono, Yields-if, Yields-assert}
use rust_delharc.Error.{LhaError}
use rust_delharc.StubIo.{Read}
use rust_delharc.StubIo.Laws.{IsReader}
use rust_delharc.RingBuf
use rust_delharc.RingBuf.Window
use rust_delharc.RingBuf.Copy.{length-copy_history, iter_from_offset_refines}
use rust_delharc.BitStream
use rust_delharc.BitStream.Total.{HasBits, HasBits-mono, new-HasBits}
use rust_delharc.StaticTree
use rust_delharc.StaticTree.Safety.{IsWhole}
use rust_delharc.Decode.Target.{while_target}
use rust_delharc.Decode.Progress.{progress_u32-none, progress_u32-lt}
use rust_delharc.Decode.Filling.{Fits, Filled, while_target-Post}
use rust_delharc.Decode.Lhv2.Trees.{
  Config, window_size, lh5_config, lh7_config, lhx_config, LhaV2Decoder, on_bits, read_temp_tree,
  read_command_tree, read_offset_tree,
}
use rust_delharc.Decode.Lhv2.Reads.{bits_taken, bits_read, entry_read}
use rust_delharc.Decode.Lhv2.Blocks.{
  HasWindow, HasTrees, Windowed, Offsets, Commands, Trees, temp_tree_read, command_tree_read,
  offset_tree_read,
}
use rust_delharc.Decode.Lhv2.{
  new, begin_new_block, begin_blocks, read_command, read_offset, copy_from_history, fill_step,
  resume, fill_buffer,
}

-- The bounds that the methods' constants keep.
pub record IsConfig (cfg : Config) : Type 0 where
  pub history : cfg.history_bits ≤ 20
  pub offset : cfg.offset_bits ≤ 5

-- The method's constants keep the bounds of `IsConfig`.
pub lh5-IsConfig : IsConfig lh5_config
lh5-IsConfig = record { history = omega arith; offset = omega arith }

pub lh7-IsConfig : IsConfig lh7_config
lh7-IsConfig = record { history = omega arith; offset = omega arith }

pub lhx-IsConfig : IsConfig lhx_config
lhx-IsConfig = record { history = omega arith; offset = omega arith }

module _ (rd : Read) (laws : IsReader rd) (cfg : Config) (bounds : IsConfig cfg) where
  -- The stream can be read, `c` bits of it at most, the window has its size, and while commands of
  -- a block remain, the block's trees are whole.
  pub record IsLhv2 (c : ℕ) (d : LhaV2Decoder rd) : Type 0 where
    pub stream : HasBits rd laws c d.bit_reader
    pub window : Window.IsValid (cfg.history_bits - 1) d.ringbuf
    pub trees :
        0 < d.remaining_commands → IsWhole 512 d.command_tree.tree × IsWhole 33 d.offset_tree.tree

  -- A decoder within a block, whose copy has the given progress.
  abbrev pub Block : Option (ℕ × ℕ) → ℕ → LhaV2Decoder rd → Type 0
  Block = Trees rd laws (cfg.history_bits - 1)

  pub Block-IsLhv2 : (p : Option (ℕ × ℕ)) (c : ℕ) (d : LhaV2Decoder rd) → Block p c d → IsLhv2 c d
  Block-IsLhv2 p c d b = record {
    stream = b.stream;
    window = b.kept.0.0;
    trees = λ h. (b.kept.1, b.kept.2);
  }

  -- A block starts with the number of its commands, of 16 bits.
  Block-begun :
      (p : Option (ℕ × ℕ)) (c : ℕ) (d : LhaV2Decoder rd)
      → d.copy_progress ≡ p
      → IsLhv2 c d
      → Yields (λ u t. Block p (c - 16) t × (16 ≤ c)) (begin_new_block cfg rd d)
  unfolding begin_new_block
  Block-begun p c d e v =
      let w = cfg.history_bits - 1 in
      Yields-bind (λ x t. (x < 2 ^ 16) × Windowed rd laws w p (c - 16) t × (16 ≤ c)) Begun
        (on_bits rd (BitStream.read_bits rd 16 16)) _ d
        (bits_taken rd laws (HasWindow rd laws w p) (λ d b h. h) 16 16 c d (omega arith)
          (omega arith) (record { stream = v.stream; kept = (v.window, e) }))
        (λ n t (small, r, enough).
          Yields-bind (λ u s. Offsets rd laws w p (c - 16) s) Begun (read_temp_tree rd) _
            (record t { remaining_commands = n })
            (temp_tree_read rd laws w p (c - 16) (record t { remaining_commands = n })
              (record { stream = r.stream; kept = r.kept }))
            (λ u1 t1 r1.
              Yields-bind (λ u s. Commands rd laws w p (c - 16) s) Begun (read_command_tree rd) _ t1
                (command_tree_read rd laws w p (c - 16) t1 r1)
                (λ u2 t2 r2.
                  Yields-mono (λ u s. Block p (c - 16) s) Begun (read_offset_tree cfg rd t2)
                    (offset_tree_read rd laws w p cfg (c - 16) t2 bounds.history bounds.offset r2)
                    (λ u3 t3 r3. (r3, enough)))))
    where
      Begun : Unit {0} → LhaV2Decoder rd → Type 0
      Begun u s = Block p (c - 16) s × (16 ≤ c)

  -- Empty blocks use the input up.
  pub blocks_begun :
      (p : Option (ℕ × ℕ)) (blocks c : ℕ) (d : LhaV2Decoder rd)
      → c < 16 * blocks
      → d.copy_progress ≡ p
      → IsLhv2 c d
      → Yields (λ u t. Block p c t × (0 < t.remaining_commands)) (begin_blocks cfg rd blocks d)
  unfolding begin_blocks
  blocks_begun p zero c d h e v = absurd (omega arith)
  blocks_begun p (suc blocks) c d h e v = elim (Bool-cases (d.remaining_commands == 0)) [
    | inl none_left ↦
        rw (none_left, Post)
          (Yields-bind (λ u t. Block p (c - 16) t × (16 ≤ c))
            (λ u t. Block p c t × (0 < t.remaining_commands)) (begin_new_block cfg rd) _ d
            (Block-begun p c d e v)
            (λ u t (b, enough).
              Yields-mono (λ u t. Block p (c - 16) t × (0 < t.remaining_commands))
                (λ u t. Block p c t × (0 < t.remaining_commands)) (begin_blocks cfg rd blocks t)
                (blocks_begun p blocks (c - 16) t (omega arith) b.kept.0.1
                  (Block-IsLhv2 p (c - 16) t b))
                (λ u t (b, some_left). (
                  record {
                    stream = HasBits-mono rd laws (c - 16) c t.bit_reader (omega arith) b.stream;
                    kept = b.kept;
                  },
                  some_left,
                ))))
    | inr more ↦
        let some_left = ==_zero-false d.remaining_commands more in
        let (commands, offsets) = v.trees some_left in
        rw (more, Post)
          (record { stream = v.stream; kept = ((v.window, e), commands, offsets) }, some_left)
  ]

  -- The progress of a copy has 32 bits.
  abbrev pub HasCount : LhaV2Decoder rd → Type 0
  HasCount d = (offset count : ℕ) → d.copy_progress ≡ some (offset, count) → count < 2 ^ 32

  -- After a call that writes `bytes`: a copy is left unfinished only if they fill the room.
  abbrev pub Copied : ℕ → ℕ → List ℕ → LhaV2Decoder rd → Type 0
  Copied c room bytes t = IsLhv2 c t × (length bytes < room → t.copy_progress ≡ none) × HasCount t

  none-HasCount : (d : LhaV2Decoder rd) → d.copy_progress ≡ none → HasCount d
  none-HasCount d e offset count f = cc

  copied :
      (room offset count c : ℕ) (d : LhaV2Decoder rd)
      → IsLhv2 c d
      → Yields
          (λ bytes t. (length bytes ≡ min room count) × Copied c room bytes t)
          (copy_from_history cfg rd room offset count d)
  unfolding copy_from_history
  copied room offset count c d v =
      let n = min room count in
      let size : 2 ^ (cfg.history_bits - 1) ≡ window_size cfg = omega arith in
      let ring : Window.IsValid (cfg.history_bits - 1)
          (RingBuf.copy_history (window_size cfg) n
            (RingBuf.iter_from_offset (window_size cfg) d.ringbuf offset)).1 =
        subst
          (λ (N : ℕ).
            Window.IsValid (cfg.history_bits - 1)
              (RingBuf.copy_history N n (RingBuf.iter_from_offset N d.ringbuf offset)).1)
          size
          (iter_from_offset_refines (cfg.history_bits - 1) (let h = bounds.history in omega arith)
            d.ringbuf v.window n offset).2 in
      let wrote =
        length-copy_history (window_size cfg) n
          (RingBuf.iter_from_offset (window_size cfg) d.ringbuf offset) in
      (
        wrote,
        (
          record { stream = v.stream; window = ring; trees = v.trees },
          (λ part. progress_u32-none offset (count - n) (omega arith)),
          λ o k e. progress_u32-lt offset (count - n) o k e,
        ),
      )

  pub offset_read :
      (p : Option (ℕ × ℕ)) (c : ℕ) (d : LhaV2Decoder rd)
      → Block p c d
      → Yields (λ x t. Block p c t) (read_offset cfg rd d)
  unfolding read_offset
  offset_read p c d b =
      let w = cfg.history_bits - 1 in
      Yields-bind (λ x t. (x < 33) × Block p c t) (λ x t. Block p c t)
        (λ (x : LhaV2Decoder rd).
          on_bits rd (StaticTree.read_entry (BitStream.read_bits rd 64 1) x.offset_tree) x)
        _ d (entry_read rd laws (HasTrees rd laws w p) (λ d b h. h) 33 d.offset_tree c d b.kept.2 b)
        (λ bits t (low, r).
          Yields-if (λ x t. Block p c t) (leb bits 1) (ret bits) _ t (λ e. r)
            (λ e.
              Yields-bind (λ x t. (x < 2 ^ (bits - 1)) × Block p c t) (λ x t. Block p c t)
                (on_bits rd (BitStream.read_bits rd 32 (bits - 1))) _ t
                (bits_read rd laws (HasTrees rd laws w p) (λ d b h. h) 32 (bits - 1) c t
                  (omega arith) (omega arith) r)
                (λ res u (small, q).
                  Yields-assert (λ x t. Block p c t) (ltb (bits - 1) 32)
                    (ret (bit_or res (1 <<< (bits - 1)))) u (lt→ltb _ _ (omega arith)) q)))

  abbrev pub Wrote : Option (ℕ × ℕ) → ℕ → ℕ → List ℕ → LhaV2Decoder rd → Type 0
  Wrote p room c bytes t = Fits room bytes × IsLhv2 c t × (p ≡ none → Copied c room bytes t)

  pub step_fits :
      (p : Option (ℕ × ℕ)) (blocks c room : ℕ) (d : LhaV2Decoder rd)
      → c < 16 * blocks
      → 0 < room
      → d.copy_progress ≡ p
      → IsLhv2 c d
      → Yields (Wrote p room c) (fill_step cfg rd blocks room d)
  unfolding fill_step read_command
  step_fits p blocks c room d few h e v =
      let w = cfg.history_bits - 1 in
      Yields-bind (λ u t. Block p c t × (0 < t.remaining_commands)) (Wrote p room c)
        (begin_blocks cfg rd blocks) _ d (blocks_begun p blocks c d few e v)
        (λ u t (b, some_left).
          Yields-bind (λ x t. (x < 512) × Block p c t) (Wrote p room c) (read_command cfg rd) _
            (record t { remaining_commands = t.remaining_commands - 1 })
            (entry_read rd laws (HasTrees rd laws w p) (λ d b h. h) 512 t.command_tree c
              (record t { remaining_commands = t.remaining_commands - 1 }) b.kept.1
              (record { stream = b.stream; kept = b.kept }))
            (λ code t1 (low, r).
              Yields-if (Wrote p room c) (leb code 0xff) _ _ t1
                (λ e.
                  let next : IsLhv2 c (record t1 {
                    ringbuf = RingBuf.push (window_size cfg) t1.ringbuf (u8 code);
                  }) =
                    record {
                      stream = r.stream;
                      window = pushed t1 (u8 code) r.kept.0.0;
                      trees = λ g. (r.kept.1, r.kept.2);
                    } in
                  (
                    (omega arith, omega arith),
                    next,
                    λ q. (
                      next,
                      (λ part. r.kept.0.1 ∙ q),
                      none-HasCount
                          (record t1 {
                            ringbuf = RingBuf.push (window_size cfg) t1.ringbuf (u8 code);
                          })
                          (r.kept.0.1 ∙ q),
                    ),
                  ))
                (λ e.
                  Yields-bind (λ x t. Block p c t) (Wrote p room c) (read_offset cfg rd) _ t1
                    (offset_read p c t1 r)
                    (λ offset t2 r2.
                      Yields-mono
                        (λ bytes t.
                          (length bytes ≡ min room (code - 0x100 + 3)) × Copied c room bytes t)
                        (Wrote p room c)
                        (copy_from_history cfg rd room offset (code - 0x100 + 3) t2)
                        (copied room offset (code - 0x100 + 3) c t2 (Block-IsLhv2 p c t2 r2))
                        (λ bytes t3 (e, q). ((omega arith, omega arith), q.0, λ u. q))))))
    where
      pushed :
          (t : LhaV2Decoder rd) (b : ℕ)
          → Window.IsValid (cfg.history_bits - 1) t.ringbuf
          → Window.IsValid (cfg.history_bits - 1) (RingBuf.push (window_size cfg) t.ringbuf b)
      pushed t b v =
          let size : 2 ^ (cfg.history_bits - 1) ≡ window_size cfg = omega arith in
          subst (λ (N : ℕ). Window.IsValid (cfg.history_bits - 1) (RingBuf.push N t.ringbuf b)) size
            (Window.push-IsValid (cfg.history_bits - 1) t.ringbuf b v)

  pub resumed :
      (c n : ℕ) (d : LhaV2Decoder rd)
      → IsLhv2 c d
      → Yields (λ bytes t. (length bytes ≤ n) × Copied c n bytes t) (resume cfg rd n d)
  unfolding resume
  resumed c n d v = by_progress d.copy_progress refl
    where
      by_progress :
          (p : Option (ℕ × ℕ))
          → d.copy_progress ≡ p
          → Yields
              (λ bytes t. (length bytes ≤ n) × Copied c n bytes t)
              (elim p as (λ x. Outcome (LhaError rd.Error) (LhaV2Decoder rd) (List ℕ)) [
                | some (offset, count) ↦ copy_from_history cfg rd n offset count d
                | none ↦ ok [] d
              ])
      by_progress none e = (omega arith, (v, (λ part. e), none-HasCount d e))
      by_progress (some (offset, count)) e =
          Yields-mono (λ bytes t. (length bytes ≡ min n count) × Copied c n bytes t)
            (λ bytes t. (length bytes ≤ n) × Copied c n bytes t)
            (copy_from_history cfg rd n offset count d) (copied n offset count c d v)
            (λ bytes t (e, m). (omega arith, m))

  pub fill_buffer-Yields :
      (blocks c n : ℕ) (d : LhaV2Decoder rd)
      → c < 16 * blocks
      → IsLhv2 c d
      → Yields (Filled (IsLhv2 c) n) (fill_buffer cfg rd blocks n d)
  unfolding fill_buffer
  fill_buffer-Yields blocks c n d few v =
      Yields-bind (λ bytes t. (length bytes ≤ n) × Copied c n bytes t) (Filled (IsLhv2 c) n)
        (resume cfg rd n) _ d (resumed c n d v)
        (λ bytes t (small, (j, part, count)).
          Yields-bind (Filled (IsLhv2 c) (n - length bytes)) (Filled (IsLhv2 c) n)
            (while_target (fill_step cfg rd blocks) n (n - length bytes))
            (λ rest. ret (bytes ++ rest)) t
            (while_target-Post (IsLhv2 c) (λ s. Unit) (fill_step cfg rd blocks)
              (λ left s h i.
                Yields-mono (Wrote s.copy_progress left c) (λ bytes t. Fits left bytes × IsLhv2 c t)
                  (fill_step cfg rd blocks left s)
                  (step_fits s.copy_progress blocks c left s few h refl i)
                  (λ bytes t (fits, k, after). (fits, k)))
              n (n - length bytes) t (omega arith) j)
            (λ rest u (e, k). (omega (arith, length-append bytes rest), k)))

  pub new-IsLhv2 : (r : rd.Reader) → laws.Valid r → IsLhv2 (8 * laws.left r) (new cfg rd r)
  unfolding new RingBuf.spaces
  new-IsLhv2 r h = record {
    stream = new-HasBits rd laws r h;
    window = record {
      full = length-replicate {A = ℕ} (window_size cfg) b' ' ∙ omega arith;
      inside = one-le-pow (cfg.history_bits - 1) 2 (omega arith);
    };
    trees = λ g. absurd (omega arith);
  }
