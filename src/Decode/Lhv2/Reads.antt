-- ===== src/Decode/Lhv2/Reads.antt =====
-- src/decode/lhv2.rs: what the reads from the stream leave, over any reader that keeps its promises.
use rust_delharc.Prelude.{ℕ, zero, suc, ◌+◌, ◌-◌, ◌^◌, ◌≤◌, ◌<◌, ◌≡◌, refl, ap, length, ◌==◌, arith}
use rust_delharc.Outcome.{Yields, ◌>>=◌, ret, fail}
use rust_delharc.Outcome.Rules.{Yields-bind, Yields-mono, Yields-if, Yields-elim, Post-within}
use rust_delharc.Error.{decompress}
use rust_delharc.StubIo.{Read}
use rust_delharc.StubIo.Laws.{IsReader}
use rust_delharc.BitStream
use rust_delharc.BitStream.{BitStream}
use rust_delharc.BitStream.Total.{HasBits, HasBits-mono, Taken, read_bits-Taken, read_bit-Taken}
use rust_delharc.StaticTree
use rust_delharc.StaticTree.{HuffTree}
use rust_delharc.StaticTree.Safety.{IsWhole}
use rust_delharc.StaticTree.Stream.{read_entry-whole}
use rust_delharc.Decode.Lhv2.Trees.{
  LhaV2Decoder, on_bits, lengthen, read_code_length, read_code_skip, read_code_lengths,
}

-- `Kept` is a predicate on all of the decoder but its stream.
module _ (rd : Read) (laws : IsReader rd) (Kept : LhaV2Decoder rd → Type 0)
    (moves : (d : LhaV2Decoder rd) (b : BitStream rd)
      → Kept d
      → Kept (record d { bit_reader = b })) where
  -- The stream can be read, `c` bits of it at most.
  pub record Running (c : ℕ) (d : LhaV2Decoder rd) : Type 0 where
    pub stream : HasBits rd laws c d.bit_reader
    pub kept : Kept d

  pub bits_taken :
      (w n c : ℕ) (d : LhaV2Decoder rd)
      → n ≤ w
      → w ≤ 64
      → Running c d
      → Yields
          (λ x t. (x < 2 ^ n) × Running (c - n) t × (n ≤ c))
          (on_bits rd (BitStream.read_bits rd w n) d)
  bits_taken w n c d h k v =
      Post-within (Taken rd laws c n) (λ x t. (x < 2 ^ n) × Running (c - n) t × (n ≤ c))
        (HasBits rd laws c) (λ t. Unit) (λ (x : LhaV2Decoder rd). x.bit_reader)
        (λ (x : LhaV2Decoder rd) (b : BitStream rd). record x { bit_reader = b })
        (BitStream.read_bits rd w n) d (read_bits-Taken rd laws w n c d.bit_reader h k v.stream)
        (λ t j. tt)
        (λ x t taken. (taken.0, record { stream = taken.1; kept = moves d t v.kept }, taken.2))

  pub bits_read :
      (w n c : ℕ) (d : LhaV2Decoder rd)
      → n ≤ w
      → w ≤ 64
      → Running c d
      → Yields (λ x t. (x < 2 ^ n) × Running c t) (on_bits rd (BitStream.read_bits rd w n) d)
  bits_read w n c d h k v =
      Yields-mono (λ x t. (x < 2 ^ n) × Running (c - n) t × (n ≤ c))
        (λ x t. (x < 2 ^ n) × Running c t) (on_bits rd (BitStream.read_bits rd w n) d)
        (bits_taken w n c d h k v)
        (λ x t (small, r, few). (
          small,
          record {
            stream = HasBits-mono rd laws (c - n) c t.bit_reader (omega arith) r.stream;
            kept = r.kept;
          },
        ))

  pub flag_read :
      (c : ℕ) (d : LhaV2Decoder rd)
      → Running c d
      → Yields (λ b t. Running c t) (on_bits rd (BitStream.read_bit rd) d)
  flag_read c d v =
      Post-within (λ b t. HasBits rd laws (c - 1) t × (1 ≤ c)) (λ b t. Running c t)
        (HasBits rd laws c) (λ t. Unit) (λ (x : LhaV2Decoder rd). x.bit_reader)
        (λ (x : LhaV2Decoder rd) (b : BitStream rd). record x { bit_reader = b })
        (BitStream.read_bit rd) d (read_bit-Taken rd laws c d.bit_reader v.stream) (λ t j. tt)
        (λ x t taken. record {
          stream = HasBits-mono rd laws (c - 1) c t (omega arith) taken.0;
          kept = moves d t v.kept;
        })

  pub entry_read :
      (bound : ℕ) (tree : HuffTree) (c : ℕ) (d : LhaV2Decoder rd)
      → IsWhole bound tree.tree
      → Running c d
      → Yields
          (λ x t. (x < bound) × Running c t)
          (on_bits rd (StaticTree.read_entry (BitStream.read_bits rd 64 1) tree) d)
  entry_read bound tree c d w v =
      Post-within (λ x t. (x < bound) × HasBits rd laws c t) (λ x t. (x < bound) × Running c t)
        (HasBits rd laws c) (λ t. Unit) (λ (x : LhaV2Decoder rd). x.bit_reader)
        (λ (x : LhaV2Decoder rd) (b : BitStream rd). record x { bit_reader = b })
        (StaticTree.read_entry (BitStream.read_bits rd 64 1) tree) d
        (read_entry-whole rd laws bound tree w c d.bit_reader v.stream) (λ t j. tt)
        (λ x t (small, has). (small, record { stream = has; kept = moves d t v.kept }))

  lengthened :
      (room len c : ℕ) (d : LhaV2Decoder rd)
      → Running c d
      → Yields (λ x t. Running c t) (lengthen rd room len d)
  unfolding lengthen
  lengthened zero len c d v =
      Yields-bind (λ b t. Running c t) (λ x t. Running c t) (on_bits rd (BitStream.read_bit rd)) _ d
        (flag_read c d v)
        (λ bit t r.
          Yields-if (λ x t. Running c t) bit (fail (decompress "code length overflow")) (ret len) t
            (λ e. tt) (λ e. r))
  lengthened (suc room) len c d v =
      Yields-bind (λ b t. Running c t) (λ x t. Running c t) (on_bits rd (BitStream.read_bit rd)) _ d
        (flag_read c d v)
        (λ bit t r.
          Yields-elim (λ x t. Running c t) bit (lengthen rd room (len + 1)) (ret len) t
            (λ e. lengthened room (len + 1) c t r) (λ e. r))

  length_read :
      (c : ℕ) (d : LhaV2Decoder rd)
      → Running c d
      → Yields (λ x t. Running c t) (read_code_length rd d)
  unfolding read_code_length
  length_read c d v =
      Yields-bind (λ x t. (x < 2 ^ 3) × Running c t) (λ x t. Running c t)
        (on_bits rd (BitStream.read_bits rd 8 3)) _ d
        (bits_read 8 3 c d (omega arith) (omega arith) v)
        (λ len t (small, r).
          Yields-if (λ x t. Running c t) (len == 7) (lengthen rd (255 - 7) len) (ret len) t
            (λ e. lengthened (255 - 7) len c t r) (λ e. r))

  pub skip_read :
      (range c : ℕ) (d : LhaV2Decoder rd)
      → Running c d
      → Yields (λ x t. (0 < x) × Running c t) (read_code_skip rd range d)
  unfolding read_code_skip
  skip_read range c d v =
      Yields-if Skipped (range == 0) (ret 1) _ d (λ e. (omega arith, v))
        (λ e.
          Yields-if Skipped (range == 1) _ _ d (λ e. more 4 3 (omega arith) (omega arith))
            (λ e. more 9 20 (omega arith) (omega arith)))
    where
      Skipped : ℕ → LhaV2Decoder rd → Type 0
      Skipped x t = (0 < x) × Running c t

      more :
          (bits least : ℕ)
          → bits ≤ 64
          → 0 < least
          → Yields Skipped
              ((on_bits rd (BitStream.read_bits rd 64 bits) >>= λ skip. ret (skip + least)) d)
      more bits least h k =
          Yields-bind (λ x t. (x < 2 ^ bits) × Running c t) Skipped
            (on_bits rd (BitStream.read_bits rd 64 bits)) _ d
            (bits_read 64 bits c d h (omega arith) v) (λ skip t (small, r). (omega arith, r))

  pub lengths_read :
      (n c : ℕ) (d : LhaV2Decoder rd)
      → Running c d
      → Yields (λ lens t. (length lens ≡ n) × Running c t) (read_code_lengths rd n d)
  unfolding read_code_lengths
  lengths_read zero c d v = (refl, v)
  lengths_read (suc n) c d v =
      Yields-bind (λ x t. Running c t) (λ lens t. (length lens ≡ suc n) × Running c t)
        (read_code_length rd) _ d (length_read c d v)
        (λ len t r.
          Yields-bind (λ lens t. (length lens ≡ n) × Running c t)
            (λ lens t. (length lens ≡ suc n) × Running c t) (read_code_lengths rd n) _ t
            (lengths_read n c t r) (λ lens u (e, q). (ap suc e, q)))
