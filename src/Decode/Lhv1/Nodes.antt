-- ===== src/Decode/Lhv1/Nodes.antt =====
-- src/decode/lhv1/dyntree.rs: the parts of the dynamic Huffman tree, and their small operations.
use rust_delharc.Prelude.{
  ℕ, zero, suc, ◌+◌, ◌-◌, ◌*◌, Option, none, some, List, [], ◌∷◌, get_elem?, set, replicate, ltb,
  ◌==◌, if◌then◌else◌,
}
use rust_delharc.Outcome.{ok, panic, Prog, ◌>>=◌, ◌>>◌, ret, modify, assert}
use rust_delharc.StaticTree.Entry
use rust_delharc.StaticTree.Entry.{TreeEntry}

abbrev pub reorder_limit : ℕ
reorder_limit = 32 * 1024

abbrev pub num_leaves : ℕ
num_leaves = 314

abbrev pub num_nodes : ℕ
num_nodes = num_leaves * 2 - 1

-- `struct TreeNode`
pub record TreeNode : Type 0 where
  pub entry : TreeEntry
  pub freq : ℕ
  pub parent : ℕ
  pub group : ℕ

-- `TreeNode::default()`: a branch to the root.
abbrev pub default_node : TreeNode
default_node = record { entry = 0; freq = 0; parent = 0; group = 0 }

unfoldable pub new_leaf : ℕ → ℕ → TreeNode
new_leaf value group = record { entry = Entry.new_leaf value; freq = 1; parent = 0; group = group }

-- `TreeNode::new_branch`; the index is a node's, so `TreeEntry::branch` does not fail.
unfoldable pub new_branch : ℕ → ℕ → ℕ → TreeNode
new_branch child_index freq group = record {
  entry = Entry.set_as_branch child_index;
  freq = freq;
  parent = 0;
  group = group;
}

-- `struct Groups`
pub record Groups : Type 0 where
  pub ngroups : ℕ
  pub groups : List ℕ
  pub leaders : List ℕ

-- `struct DynHuffTree`; `leaves` is `LeaveIndex`.
pub record DynHuffTree : Type 0 where
  pub nodes : List TreeNode
  pub leaves : List ℕ
  pub groups : Groups

-- `0..n`, from `i` on.
unfoldable pub numbers : ℕ → ℕ → List ℕ
numbers i zero = []
numbers i (suc n) = i ∷ numbers (i + 1) n

-- `Groups::reset`
unfoldable pub reset_groups : Groups → Groups
unfolding numbers
reset_groups g = record g { ngroups = 0; groups = numbers 0 num_nodes }

-- `Groups::new`
unfoldable pub new_groups : Groups
unfolding reset_groups
new_groups =
    reset_groups
      (record { ngroups = 0; groups = replicate num_nodes 0; leaders = replicate num_nodes 0 })

-- An indexed read, and a write: both panic out of bounds.
unfoldable pub load : {E S A : Type 0} → List A → ℕ → Prog E S A
load xs i s = elim (get_elem? xs i) [ some x ↦ ok x s | none ↦ panic ]

unfoldable pub store : {A : Type 0} → List A → ℕ → A → Option (List A)
store xs i v = elim (get_elem? xs i) [ some x ↦ some (set xs i v) | none ↦ none ]

module _ {E : Type 0} where
  unfoldable pub put_groups : Groups → Prog E DynHuffTree (Unit {0})
  put_groups g = modify (λ t. record t { groups = g })

  -- `self.nodes[i]`
  unfoldable pub get_node : ℕ → Prog E DynHuffTree TreeNode
  unfolding load
  get_node i t = load t.nodes i t

  unfoldable pub put_node : ℕ → TreeNode → Prog E DynHuffTree (Unit {0})
  unfolding store
  put_node i node t = elim (store t.nodes i node) [
    | some nodes ↦ ok tt (record t { nodes = nodes })
    | none ↦ panic
  ]

  -- `Groups::allocate`
  unfoldable pub allocate : Prog E DynHuffTree ℕ
  unfolding load put_groups
  allocate t =
      (load t.groups.groups t.groups.ngroups >>= λ group.
      put_groups (record t.groups { ngroups = t.groups.ngroups + 1 }) >> ret group)
        t

  -- `Groups::free`; no group left overflows the subtraction.
  unfoldable pub free : ℕ → Prog E DynHuffTree (Unit {0})
  unfolding store put_groups
  free group t =
      let ngroups = t.groups.ngroups - 1 in
      if t.groups.ngroups == 0 then panic else elim (store t.groups.groups ngroups group) [
        | some groups ↦ put_groups (record t.groups { ngroups = ngroups; groups = groups }) t
        | none ↦ panic
      ]

  -- `Groups::set_leader_index`
  unfoldable pub set_leader_index : ℕ → ℕ → Prog E DynHuffTree (Unit {0})
  unfolding store put_groups
  set_leader_index group node_index t =
      (assert (ltb node_index num_nodes) >> λ s. elim (store s.groups.leaders group node_index) [
        | some leaders ↦ put_groups (record s.groups { leaders = leaders }) s
        | none ↦ panic
      ])
        t

  -- `Groups::get_leader_index`
  unfoldable pub get_leader_index : ℕ → Prog E DynHuffTree ℕ
  unfolding load
  get_leader_index group t = load t.groups.leaders group t

  -- `Groups::set_next_node_as_leader`
  unfoldable pub set_next_node_as_leader : ℕ → Prog E DynHuffTree (Unit {0})
  unfolding get_leader_index set_leader_index
  set_next_node_as_leader group = do
    l ← get_leader_index group
    assert (ltb l (num_nodes - 1))
    set_leader_index group (l + 1)

  -- `LeaveIndex::set_leaf_node_index`
  unfoldable pub set_leaf_node_index : ℕ → ℕ → Prog E DynHuffTree (Unit {0})
  unfolding store
  set_leaf_node_index value node_index t =
      (assert (ltb node_index num_nodes) >> λ s. elim (store s.leaves value node_index) [
        | some leaves ↦ ok tt (record s { leaves = leaves })
        | none ↦ panic
      ])
        t

  -- `LeaveIndex::get_leaf_node_index`
  unfoldable pub get_leaf_node_index : ℕ → Prog E DynHuffTree ℕ
  unfolding load
  get_leaf_node_index value t = load t.leaves value t
