-- ===== src/StaticTree/Nodes.antt =====
-- src/statictree/entry.rs: the 16 bits of an entry and the node that they stand for.
use rust_delharc.Prelude.{ℕ, ◌+◌, ◌≤◌, ◌<◌, ◌≡◌, some, none, arith}
use rust_delharc.Prelude.Bits.{bit_and_mask, bit_or_high}
use rust_delharc.StaticTree.Entry.{
  TreeEntry, leaf, branch, max_index, new_leaf, new_branch, as_type,
}

pub new_leaf_sum : (v : ℕ) → v ≤ max_index → new_leaf v ≡ 0x8000 + v
unfolding new_leaf
new_leaf_sum v h = bit_or_high 15 1 v (omega arith)

-- A leaf reads back as a leaf of its value.
pub as_type-new_leaf : (v : ℕ) → v ≤ max_index → as_type (new_leaf v) ≡ leaf v
unfolding as_type
as_type-new_leaf v h = rw (new_leaf_sum v h) (ground (arith, bit_and_mask 15 (0x8000 + v)))

-- `TreeEntry::branch` accepts exactly the indices up to the limit, and what it makes reads back as
-- a branch to its index.
pub new_branch-some : (c : ℕ) → c ≤ max_index → new_branch c ≡ some c
unfolding new_branch
new_branch-some c h = ground arith

pub new_branch-none : (c : ℕ) → max_index < c → new_branch c ≡ none
unfolding new_branch
new_branch-none c h = ground arith

pub as_type-branch : (c : ℕ) → c ≤ max_index → as_type c ≡ branch c
unfolding as_type
as_type-branch c h = ground (arith, bit_and_mask 15 c)

pub new_branch-inv : (c : ℕ) {e : TreeEntry} → new_branch c ≡ some e → (e ≡ c) × (c ≤ max_index)
unfolding new_branch
new_branch-inv c h = ground arith

-- Up to the limit of 15 bits, an entry made from a leaf reads back as a leaf of its value and one
-- made from a branch as a branch to its index; beyond the limit a branch is refused.
pub Entry_round_trip :
    (x : ℕ)
    → (x ≤ max_index → as_type (new_leaf x) ≡ leaf x)
      × (x ≤ max_index → (new_branch x ≡ some x) × (as_type x ≡ branch x))
      × (max_index < x → new_branch x ≡ none)
Entry_round_trip x =
    (as_type-new_leaf x, (λ h. (new_branch-some x h, as_type-branch x h)), new_branch-none x)
