-- ===== src/Decode/Lhv2/Blocks.antt =====
-- src/decode/lhv2.rs: the trees that a block begins with, over any reader that keeps its promises.
use rust_delharc.Prelude.{
  ℕ, zero, suc, ◌+◌, ◌-◌, ◌^◌, ◌≤◌, ◌<◌, ◌≡◌, refl, true, inl, inr, Bool-cases, Option, List, ◌++◌,
  length, length-append, length-replicate, length-take, replicate, take, set, u8, min, ltb, leb,
  ltb-false→≤, le→leb, ◌==◌, arith,
}
use native.Mathlib.Nat.{pow-le-pow_right}
use rust_delharc.Outcome.{Outcome, ok, err, Yields, Post}
use rust_delharc.Outcome.Rules.{Yields-bind, Yields-assert, Yields-if, Yields-elim, Yields-fail_if}
use rust_delharc.Error.{LhaError, decompress}
use rust_delharc.StubIo.{Read}
use rust_delharc.StubIo.Laws.{IsReader}
use rust_delharc.RingBuf.Window
use rust_delharc.BitStream
use rust_delharc.BitStream.{BitStream}
use rust_delharc.StaticTree
use rust_delharc.StaticTree.{HuffTree, Built, built, failed}
use rust_delharc.StaticTree.Safety.{IsWhole, IsWhole-mono, build_tree-IsWhole, set_single-IsWhole}
use rust_delharc.Decode.Lhv2.Trees.{
  Config, LhaV2Decoder, on_bits, read_code_skip, read_code_lengths, build_offset_tree,
  build_command_tree, with_skip, read_temp_codes, read_temp_tree, command_lengths,
  read_command_codes, read_command_tree, read_offset_codes, read_offset_tree, num_temp_codelen,
  num_commands,
}
use rust_delharc.Decode.Lhv2.Reads.{Running, bits_read, entry_read, skip_read, lengths_read}

module _ (rd : Read) (laws : IsReader rd) (k : ℕ) (progress : Option (ℕ × ℕ)) where
  -- What a decoder has besides its stream: a window of 2^k bytes, the progress of a copy, which stays
  -- as it was, and the trees that are read.
  abbrev pub HasWindow : LhaV2Decoder rd → Type 0
  HasWindow d = Window.IsValid k d.ringbuf × (d.copy_progress ≡ progress)

  -- The codes of the offset tree are the numbers of bits of an offset, 32 at most.
  abbrev pub HasOffsets : LhaV2Decoder rd → Type 0
  HasOffsets d = HasWindow d × IsWhole 33 d.offset_tree.tree

  abbrev pub HasCommands : LhaV2Decoder rd → Type 0
  HasCommands d = HasWindow d × IsWhole 512 d.command_tree.tree

  abbrev pub HasTrees : LhaV2Decoder rd → Type 0
  HasTrees d = HasWindow d × IsWhole 512 d.command_tree.tree × IsWhole 33 d.offset_tree.tree

  abbrev pub Windowed : ℕ → LhaV2Decoder rd → Type 0
  Windowed = Running rd laws HasWindow (λ d b h. h)

  abbrev pub Offsets : ℕ → LhaV2Decoder rd → Type 0
  Offsets = Running rd laws HasOffsets (λ d b h. h)

  abbrev pub Commands : ℕ → LhaV2Decoder rd → Type 0
  Commands = Running rd laws HasCommands (λ d b h. h)

  abbrev pub Trees : ℕ → LhaV2Decoder rd → Type 0
  Trees = Running rd laws HasTrees (λ d b h. h)

  offset_tree_built :
      (Q : LhaV2Decoder rd → Type 0) (lens : List ℕ) (d : LhaV2Decoder rd)
      → length lens ≤ 33
      → ((t : HuffTree) → IsWhole 33 t.tree → Q (record d { offset_tree = t }))
      → Yields (λ u t. Q t) (build_offset_tree rd lens d)
  unfolding build_offset_tree
  offset_tree_built Q lens d h fill = by_case (StaticTree.build_tree d.offset_tree lens) refl
    where
      by_case :
          (b : Built)
          → StaticTree.build_tree d.offset_tree lens ≡ b
          → Yields
              (λ u t. Q t)
              (elim b as (λ x. Outcome (LhaError rd.Error) (LhaV2Decoder rd) (Unit {0})) [
                | built t ↦ ok tt (record d { offset_tree = t })
                | failed e t ↦ err (decompress e) (record d { offset_tree = t })
              ])
      by_case (built t) e =
          fill t (IsWhole-mono (length lens) 33 t.tree h (build_tree-IsWhole d.offset_tree lens e))
      by_case (failed m t) e = tt

  command_tree_built :
      (Q : LhaV2Decoder rd → Type 0) (lens : List ℕ) (d : LhaV2Decoder rd)
      → length lens ≤ 512
      → ((t : HuffTree) → IsWhole 512 t.tree → Q (record d { command_tree = t }))
      → Yields (λ u t. Q t) (build_command_tree rd lens d)
  unfolding build_command_tree
  command_tree_built Q lens d h fill = by_case (StaticTree.build_tree d.command_tree lens) refl
    where
      by_case :
          (b : Built)
          → StaticTree.build_tree d.command_tree lens ≡ b
          → Yields
              (λ u t. Q t)
              (elim b as (λ x. Outcome (LhaError rd.Error) (LhaV2Decoder rd) (Unit {0})) [
                | built t ↦ ok tt (record d { command_tree = t })
                | failed e t ↦ err (decompress e) (record d { command_tree = t })
              ])
      by_case (built t) e =
          fill t
            (IsWhole-mono (length lens) 512 t.tree h (build_tree-IsWhole d.command_tree lens e))
      by_case (failed m t) e = tt

  temp_codes_read :
      (n c : ℕ) (d : LhaV2Decoder rd)
      → Windowed c d
      → Yields (λ u t. Offsets c t) (read_temp_codes rd n d)
  unfolding read_temp_codes
  temp_codes_read n c d v =
      Yields-fail_if (λ u t. Offsets c t) (ltb num_temp_codelen n) _ _ d
        (λ few.
          Yields-bind (λ lens t. (length lens ≡ min n 3) × Windowed c t) (λ u t. Offsets c t)
            (read_code_lengths rd (min n 3)) _ d
            (lengths_read rd laws HasWindow (λ d b h. h) (min n 3) c d v)
            (λ three t (three_eq, r).
              Yields-bind (λ x t. (x < 2 ^ 2) × Windowed c t) (λ u t. Offsets c t)
                (on_bits rd (BitStream.read_bits rd 64 2)) _ t
                (bits_read rd laws HasWindow (λ d b h. h) 64 2 c t (omega arith) (omega arith) r)
                (λ skip u (small, q).
                  Yields-fail_if (λ u t. Offsets c t) (ltb n (3 + skip)) _ _ u
                    (λ enough.
                      Yields-bind (λ lens t. (length lens ≡ n - (3 + skip)) × Windowed c t)
                        (λ u t. Offsets c t) (read_code_lengths rd (n - (3 + skip))) _ u
                        (lengths_read rd laws HasWindow (λ d b h. h) (n - (3 + skip)) c u q)
                        (λ others w (others_eq, p).
                          offset_tree_built (Offsets c) (with_skip three skip others) w
                            (let a = length-append three (replicate skip 0 ++ others) in
                              let b = length-append (replicate skip 0) others in
                              let e = length-replicate {A = ℕ} skip 0 in
                              let top = ltb-false→≤ _ _ few in
                              let low = ltb-false→≤ _ _ enough in omega arith)
                            (λ tree whole. record {
                              stream = p.stream;
                              kept = (p.kept, whole);
                            }))))))

  pub temp_tree_read :
      (c : ℕ) (d : LhaV2Decoder rd)
      → Windowed c d
      → Yields (λ u t. Offsets c t) (read_temp_tree rd d)
  unfolding read_temp_tree
  temp_tree_read c d v =
      Yields-bind (λ x t. (x < 2 ^ 5) × Windowed c t) (λ u t. Offsets c t)
        (on_bits rd (BitStream.read_bits rd 64 5)) _ d
        (bits_read rd laws HasWindow (λ d b h. h) 64 5 c d (omega arith) (omega arith) v)
        (λ n t (small, r).
          Yields-if (λ u t. Offsets c t) (n == 0) _ (read_temp_codes rd n) t
            (λ e.
              Yields-bind (λ x t. (x < 2 ^ 5) × Windowed c t) (λ u t. Offsets c t)
                (on_bits rd (BitStream.read_bits rd 16 5)) _ t
                (bits_read rd laws HasWindow (λ d b h. h) 16 5 c t (omega arith) (omega arith) r)
                (λ code u (low, q). record {
                  stream = q.stream;
                  kept = (q.kept, set_single-IsWhole 33 code (omega arith) (omega arith));
                }))
            (λ e. temp_codes_read n c t r))

  command_lengths_read :
      (fuel n pos : ℕ) (lens : List ℕ) (c : ℕ) (d : LhaV2Decoder rd)
      → n ≤ fuel + pos
      → Offsets c d
      → Yields (λ l t. Offsets c t) (command_lengths rd fuel n pos lens d)
  unfolding command_lengths
  command_lengths_read zero n pos lens c d h v =
      let done : leb n pos ≡ true = ground arith in rw (done, Post) v
  command_lengths_read (suc fuel) n pos lens c d h v = elim (Bool-cases (leb n pos)) [
    | inl done ↦ rw (done, Post) v
    | inr more ↦
        rw (more, Post)
          (Yields-bind (λ x t. (x < 33) × Offsets c t) (λ l t. Offsets c t)
            (λ s. on_bits rd (StaticTree.read_entry (BitStream.read_bits rd 64 1) s.offset_tree) s)
            _ d (entry_read rd laws HasOffsets (λ d b h. h) 33 d.offset_tree c d v.kept.1 v)
            (λ code t (low, r).
              Yields-elim (λ l t. Offsets c t) (leb code 2) _ _ t
                (λ e.
                  Yields-bind (λ x t. (0 < x) × Offsets c t) (λ l t. Offsets c t)
                    (read_code_skip rd code) _ t
                    (skip_read rd laws HasOffsets (λ d b h. h) code c t r)
                    (λ skip u (pos_skip, q).
                      command_lengths_read fuel n (pos + skip) lens c u (omega arith) q))
                (λ e.
                  command_lengths_read fuel n (pos + 1) (set lens pos (u8 (code - 2))) c t
                    (omega arith) r)))
  ]

  pub command_tree_read :
      (c : ℕ) (d : LhaV2Decoder rd)
      → Offsets c d
      → Yields (λ u t. Commands c t) (read_command_tree rd d)
  unfolding read_command_tree read_command_codes
  command_tree_read c d v =
      Yields-bind (λ x t. (x < 2 ^ 9) × Offsets c t) (λ u t. Commands c t)
        (on_bits rd (BitStream.read_bits rd 64 9)) _ d
        (bits_read rd laws HasOffsets (λ d b h. h) 64 9 c d (omega arith) (omega arith) v)
        (λ n t (small, r).
          Yields-if (λ u t. Commands c t) (n == 0) _ (read_command_codes rd n) t
            (λ e.
              Yields-bind (λ x t. (x < 2 ^ 9) × Offsets c t) (λ u t. Commands c t)
                (on_bits rd (BitStream.read_bits rd 16 9)) _ t
                (bits_read rd laws HasOffsets (λ d b h. h) 16 9 c t (omega arith) (omega arith) r)
                (λ code u (low, q). record {
                  stream = q.stream;
                  kept = (q.kept.0, set_single-IsWhole 512 code (omega arith) (omega arith));
                }))
            (λ e.
              Yields-fail_if (λ u t. Commands c t) (ltb num_commands n) _ _ t
                (λ few.
                  Yields-bind (λ l t. Offsets c t) (λ u t. Commands c t)
                    (command_lengths rd n n 0 (replicate num_commands 0)) _ t
                    (command_lengths_read n n 0 (replicate num_commands 0) c t (omega arith) r)
                    (λ lens u q.
                      command_tree_built (Commands c) (take n lens) u
                        (let top = ltb-false→≤ _ _ few in let a = length-take n lens in omega arith)
                        (λ tree whole. record { stream = q.stream; kept = (q.kept.0, whole) })))))

  pub offset_tree_read :
      (cfg : Config) (c : ℕ) (d : LhaV2Decoder rd)
      → cfg.history_bits ≤ 20
      → cfg.offset_bits ≤ 5
      → Commands c d
      → Yields (λ u t. Trees c t) (read_offset_tree cfg rd d)
  unfolding read_offset_tree read_offset_codes
  offset_tree_read cfg c d h g v =
      Yields-assert (λ u t. Trees c t) (leb cfg.history_bits num_temp_codelen) _ d (le→leb _ _ h)
        (Yields-bind (λ x t. (x < 2 ^ cfg.offset_bits) × Commands c t) (λ u t. Trees c t)
          (on_bits rd (BitStream.read_bits rd 64 cfg.offset_bits)) _ d
          (bits_read rd laws HasCommands (λ d b h. h) 64 cfg.offset_bits c d (omega arith)
            (omega arith) v)
          (λ n t (small, r).
            Yields-if (λ u t. Trees c t) (n == 0) _ (read_offset_codes cfg rd n) t
              (λ e.
                Yields-bind (λ x t. (x < 2 ^ cfg.offset_bits) × Commands c t) (λ u t. Trees c t)
                  (on_bits rd (BitStream.read_bits rd 16 cfg.offset_bits)) _ t
                  (bits_read rd laws HasCommands (λ d b h. h) 16 cfg.offset_bits c t (omega arith)
                    (omega arith) r)
                  (λ code u (low, q).
                    let top : 2 ^ cfg.offset_bits ≤ 2 ^ 5 =
                      pow-le-pow_right {n = 2} (omega arith) g in
                    record {
                      stream = q.stream;
                      kept = (
                        q.kept.0,
                        q.kept.1,
                        set_single-IsWhole 33 code (omega arith) (omega arith),
                      );
                    }))
              (λ e.
                Yields-fail_if (λ u t. Trees c t) (ltb cfg.history_bits n) _ _ t
                  (λ few.
                    Yields-assert (λ u t. Trees c t) (leb n num_temp_codelen) _ t
                      (le→leb _ _ (let top = ltb-false→≤ _ _ few in omega arith))
                      (Yields-bind (λ lens t. (length lens ≡ n) × Commands c t) (λ u t. Trees c t)
                        (read_code_lengths rd n) _ t
                        (lengths_read rd laws HasCommands (λ d b h. h) n c t r)
                        (λ lens u (lens_eq, q).
                          offset_tree_built (Trees c) lens u
                            (let top = ltb-false→≤ _ _ few in omega arith)
                            (λ tree whole. record {
                              stream = q.stream;
                              kept = (q.kept.0, q.kept.1, whole);
                            })))))))
