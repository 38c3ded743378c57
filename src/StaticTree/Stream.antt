-- ===== src/StaticTree/Stream.antt =====
-- src/statictree.rs with src/bitstream.rs: reading the codes of an accepted tree from a bit stream.
use rust_delharc.Prelude.{ℕ, ◌<◌, ◌≡◌, List, length}
use rust_delharc.Outcome.{Post}
use rust_delharc.StubIo.{Read}
use rust_delharc.StubIo.Laws.{IsReader}
use rust_delharc.BitStream.{BitStream, read_bits}
use rust_delharc.BitStream.Total.{HasBits, one_bit-Keeps}
use rust_delharc.StaticTree.{HuffTree, built, build_tree, read_entry}
use rust_delharc.StaticTree.Safety.{IsWhole, build_tree-IsWhole}
use rust_delharc.StaticTree.Walk.{read_entry-Safe}

module _ (rd : Read) (laws : IsReader rd) where
  pub read_entry-whole :
      (bound : ℕ) (t : HuffTree)
      → IsWhole bound t.tree
      → (c : ℕ) (s : BitStream rd) → HasBits rd laws c s
      → Post
          (λ code s'. (code < bound) × HasBits rd laws c s')
          (HasBits rd laws c)
          (read_entry (read_bits rd 64 1) t s)
  read_entry-whole bound t w c s v =
      read_entry-Safe bound (HasBits rd laws c) (read_bits rd 64 1) (one_bit-Keeps rd laws c) t w s
        v

  -- If `build_tree` accepts some code lengths, then reading an entry of its tree from a bit stream
  -- over a reader that keeps its documented behaviour returns one of the indices of the code
  -- lengths or an error, and leaves a stream that can be read, with no more bits than before: no
  -- panic and no access out of bounds.
  pub read_entry-built :
      (old t : HuffTree) (lens : List ℕ)
      → build_tree old lens ≡ built t
      → (c : ℕ) (s : BitStream rd) → HasBits rd laws c s
      → Post
          (λ code s'. (code < length lens) × HasBits rd laws c s')
          (HasBits rd laws c)
          (read_entry (read_bits rd 64 1) t s)
  read_entry-built old t lens e c s v =
      read_entry-whole (length lens) t (build_tree-IsWhole old lens e) c s v
