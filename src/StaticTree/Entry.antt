-- ===== src/StaticTree/Entry.antt =====
-- src/statictree/entry.rs: a tree node in 16 bits. A leaf has the highest bit set.
use rust_delharc.Prelude.{
  ℕ, ◌-◌, Bool, Option, none, some, bit_and, bit_or, u16, ltb, ◌==◌, if◌then◌else◌,
}

-- `struct TreeEntry(u16)`
abbrev pub TreeEntry : Type 0
TreeEntry = ℕ

-- `LEAF_BIT`, and `!LEAF_BIT` in 16 bits.
abbrev pub leaf_bit : ℕ
leaf_bit = 0x8000

abbrev pub value_mask : ℕ
value_mask = 0x7fff

abbrev pub max_index : ℕ
max_index = leaf_bit - 1

pub data NodeType : Type 0 where
  leaf : ℕ → NodeType
  branch : ℕ → NodeType

-- `TreeEntry::leaf`
unfoldable pub new_leaf : ℕ → TreeEntry
new_leaf value = bit_or value leaf_bit

-- `TreeEntry::branch`; `none` is its error "tree index out of range".
unfoldable pub new_branch : ℕ → Option TreeEntry
new_branch child_index = if ltb max_index child_index then none else some (u16 child_index)

unfoldable pub as_type : TreeEntry → NodeType
as_type entry =
    let value = bit_and entry value_mask in if value == entry then branch value else leaf value

unfoldable pub set_as_branch : ℕ → TreeEntry
set_as_branch child_index = bit_and (u16 child_index) value_mask

unfoldable pub is_leaf : TreeEntry → Bool
is_leaf entry = bit_and entry leaf_bit == leaf_bit

unfoldable pub as_value : TreeEntry → ℕ
as_value entry = bit_and entry value_mask
