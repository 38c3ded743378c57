-- ===== src/Checks/Trees.antt =====
-- Inputs on which the theorems about the codes of src/statictree.rs are applied, and runs of them:
-- the lengths are those of the tests there.
use rust_delharc.Prelude.{ℕ, ◌≡◌, refl, List, [], ◌∷◌, arith}
use rust_delharc.StubIo.{slice}
use rust_delharc.BitStream
use rust_delharc.BitStream.{BitStream}
use rust_delharc.BitStream.Refine.{Holds}
use rust_delharc.StaticTree.{HuffTree, built, build_tree, with_capacity}
use rust_delharc.StaticTree.Canonical.{code, code_bits}
use rust_delharc.StaticTree.Reading.{ReadsCode, read_entry-ReadsCode}

abbrev lengths : List ℕ
lengths = 0 ∷ 0 ∷ 0 ∷ 1 ∷ 0 ∷ 3 ∷ 3 ∷ 0 ∷ 4 ∷ 4 ∷ 5 ∷ 0 ∷ 0 ∷ 5 ∷ 5 ∷ 5 ∷ []

-- The tree of the documentation, whose children stand in pairs at odd indices.
abbrev tree : HuffTree
tree = record {
  tree =
      1 ∷ 0x8003 ∷ 3 ∷ 5 ∷ 7 ∷ 0x8005 ∷ 0x8006 ∷ 9 ∷ 11 ∷ 0x8008 ∷ 0x8009 ∷ 13 ∷ 15 ∷ 0x800a
      ∷ 0x800d ∷ 0x800e ∷ 0x800f ∷ [];
}

lengths-built : build_tree with_capacity lengths ≡ built tree
unfolding build_tree
lengths-built = refl

code_bits-thirteen : code_bits lengths 13 ≡ 1 ∷ 1 ∷ 1 ∷ 0 ∷ 1 ∷ []
unfolding code_bits
code_bits-thirteen = refl

-- A stream that begins with 11101.
abbrev stream : BitStream slice
stream = BitStream.new slice (0xe8 ∷ 0x12 ∷ [])

stream-Holds : Holds stream 0 0
unfolding BitStream.new
stream-Holds = record {
  word = refl;
  room = omega arith;
  small = omega arith;
  bytes = (omega arith, (omega arith, tt));
}

read_entry-ReadsCode_example : ReadsCode stream 0xe812 16 5 tree 13
unfolding BitStream.new BitStream.from_be_bytes code
read_entry-ReadsCode_example =
    read_entry-ReadsCode with_capacity tree lengths lengths-built 13 (omega arith) (omega arith)
      (omega arith) stream 0 0 stream-Holds (omega arith) refl
