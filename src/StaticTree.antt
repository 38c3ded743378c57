-- ===== src/StaticTree.antt =====
-- src/statictree.rs: static Huffman trees. A tree is its vector of entries; a branch holds the
-- index of its left child, and the right child follows it.
pub mod Entry
pub mod Nodes
pub mod Safety
pub mod Walk
pub mod Stream
pub mod Canonical
pub mod Levels
pub mod Places
pub mod Codes
pub mod Reading
use rust_delharc.Prelude.{
  ℕ, zero, suc, ◌+◌, ◌-◌, ◌/◌, Bool, true, false, not, ◌||◌, Option, none, some, List, [], ◌∷◌,
  ◌++◌, length, get_elem?, String, ltb, ◌==◌, if◌then◌else◌,
}
use rust_delharc.Outcome.{ok, err, panic, out_of_fuel, Prog, crash}
use Entry.{TreeEntry, max_index, NodeType, leaf, branch, new_leaf, new_branch, as_type}

-- `struct HuffTree`
pub record HuffTree : Type 0 where
  pub tree : List TreeEntry

abbrev pub with_capacity : HuffTree
with_capacity = record { tree = [] }

unfoldable pub set_single : ℕ → HuffTree
set_single value = record { tree = new_leaf value ∷ [] }

-- `build_tree` returns `Ok(())` or an error, and changes the tree in either case.
pub data Built : Type 0 where
  built : HuffTree → Built
  failed : String → HuffTree → Built

-- The first inner loop, `for _ in tree.len()..max_limit`: pushes so many branches, whose children
-- are numbered from `max_allocated` on. `none` is the error of `TreeEntry::branch`.
pub add_branches : ℕ → List TreeEntry → ℕ → Option (List TreeEntry × ℕ)
unfolding new_branch
add_branches zero tree max_allocated = some (tree, max_allocated)
add_branches (suc n) tree max_allocated = elim (new_branch max_allocated) [
  | some entry ↦ add_branches n (tree ++ entry ∷ []) (max_allocated + 2)
  | none ↦ none
]

-- The `fold` over the lengths: the leaves of the current length, whose values are the indices from
-- `value` on, and whether a longer length is left.
pub leaves_at : ℕ → List ℕ → ℕ → List TreeEntry
unfolding new_leaf
leaves_at current_len [] value = []
leaves_at current_len (len ∷ lens) value =
    let rest = leaves_at current_len lens (value + 1) in
    if len == current_len then new_leaf value ∷ rest else rest

pub more_leaves : ℕ → List ℕ → Bool
more_leaves current_len [] = false
more_leaves current_len (len ∷ lens) = ltb current_len len || more_leaves current_len lens

-- The tree is whole when every allocated index has a node.
abbrev pub finish : List TreeEntry → ℕ → Built
finish tree max_allocated =
    if not (length tree == max_allocated)
    then failed "missing some leaves" (record { tree = tree })
    else built (record { tree = tree })

-- The loop `for current_len in 1u8..`, with the lengths that are still to come. A byte is never
-- longer than 255, so the loop breaks at 255 at the latest: the case of no rounds is not reached.
pub build_levels : ℕ → ℕ → List ℕ → List TreeEntry → ℕ → Built
unfolding add_branches leaves_at more_leaves
build_levels zero current_len lens tree max_allocated = finish tree max_allocated
build_levels (suc rounds) current_len lens tree max_allocated =
    elim (add_branches (max_allocated - length tree) tree max_allocated) [
      | none ↦ failed "tree index out of range" (record { tree = [] })
      | some (branches, allocated) ↦
          let grown = branches ++ leaves_at current_len lens 0 in
          let next = build_levels rounds (current_len + 1) lens grown allocated in
          if ltb allocated (length grown)
          then failed "too many leaves" (record { tree = grown })
          else if not (more_leaves current_len lens)
          then finish grown allocated
          else next
    ]

-- `build_tree` on a tree, which is left as it is if there are too many lengths.
unfoldable pub build_tree : HuffTree → List ℕ → Built
unfolding build_levels
build_tree t value_lengths =
    if ltb (max_index / 2) (length value_lengths)
    then failed "too many code lengths" t
    else build_levels 255 1 value_lengths [] 1

-- The loop of `read_entry` at an entry; `read_bit` is `path.read_bits::<usize>(1)`.
module _ {E S : Type 0} (read_bit : Prog E S ℕ) (tree : List TreeEntry) where
  pub walk : ℕ → TreeEntry → Prog E S ℕ
  unfolding as_type
  walk zero node s = out_of_fuel
  walk (suc fuel) node s = elim (as_type node) [
    | leaf code ↦ ok code s
    | branch index ↦ elim (read_bit s) [
      | ok bit t ↦ elim (get_elem? tree (index + bit)) [
        | some child ↦ walk fuel child t
        | none ↦ panic
      ]
      | err e t ↦ err e t
      | panic ↦ panic
      | out_of_fuel ↦ out_of_fuel
    ]
  ]

-- Children stand behind their parents, so the length of the tree is fuel enough:
-- `StaticTree.Walk`. `tree[0]` panics on an empty tree.
unfoldable pub read_entry : {E S : Type 0} → Prog E S ℕ → HuffTree → Prog E S ℕ
unfolding walk
read_entry read_bit t = elim (get_elem? t.tree 0) [
  | some node ↦ walk read_bit t.tree (length t.tree) node
  | none ↦ crash
]
