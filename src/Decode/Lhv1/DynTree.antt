-- ===== src/Decode/Lhv1/DynTree.antt =====
-- src/decode/lhv1/dyntree.rs: how a tree adapts to the values read with it.
use rust_delharc.Prelude.{
  ℕ, zero, suc, ◌+◌, ◌-◌, Bool, true, false, none, some, List, get_elem?, ltb, leb, ◌==◌,
  if◌then◌else◌,
}
use rust_delharc.Outcome.{ok, err, panic, out_of_fuel, Prog, ◌>>=◌, ◌>>◌, ret, get, assert}
use rust_delharc.StaticTree.Entry
use rust_delharc.StaticTree.Entry.{TreeEntry, NodeType, leaf, branch}
use rust_delharc.Decode.Lhv1.Nodes.{
  reorder_limit, num_nodes, TreeNode, DynHuffTree, get_node, put_node, allocate, free,
  set_leader_index, get_leader_index, set_next_node_as_leader, set_leaf_node_index,
  get_leaf_node_index,
}
use rust_delharc.Decode.Lhv1.Build.{rebuild_tree}

-- Whether the next node, if there is one, is in the group.
abbrev next_in_group : DynHuffTree → ℕ → ℕ → Bool
next_in_group t node_index group = elim (get_elem? t.nodes (node_index + 1)) [
  | some next ↦ group == next.group
  | none ↦ false
]

module _ {E : Type 0} where
  -- `set_as_parent`
  unfoldable pub set_as_parent : ℕ → ℕ → Prog E DynHuffTree (Unit {0})
  set_as_parent child_index parent_index = do
    assert (ltb parent_index num_nodes)
    assert (ltb 0 child_index)
    left ← get_node (child_index - 1)
    put_node (child_index - 1) (record left { parent = parent_index })
    right ← get_node child_index
    put_node child_index (record right { parent = parent_index })

  -- What points to an entry, once it stands at a node.
  unfoldable pub relink : TreeEntry → ℕ → Prog E DynHuffTree (Unit {0})
  unfolding set_as_parent
  relink entry index = elim (Entry.as_type entry) [
    | leaf value ↦ set_leaf_node_index value index
    | branch child_index ↦ set_as_parent child_index index
  ]

  unfoldable pub promote_to_leader : ℕ → Prog E DynHuffTree ℕ
  unfolding relink
  promote_to_leader node_index = do
    node ← get_node node_index
    leader_index ← get_leader_index node.group
    let swap : Prog E DynHuffTree ℕ = do
      assert (ltb leader_index node_index)
      prev_leader ← get_node leader_index
      put_node node_index (record node { entry = prev_leader.entry })
      put_node leader_index (record prev_leader { entry = node.entry })
      relink prev_leader.entry node_index
      relink node.entry leader_index
      ret leader_index
    if leader_index == node_index then ret node_index else swap

  -- `increment_frequency`, which returns the parent of the node.
  unfoldable pub increment_frequency : ℕ → Prog E DynHuffTree ℕ
  increment_frequency node_index = do
    assert (ltb 0 node_index)
    prev ← get_node (node_index - 1)
    node ← get_node node_index
    let freq = node.freq + 1
    assert (ltb freq 65536)
    put_node node_index (record node { freq = freq })
    t ← get
    let own : Prog E DynHuffTree ℕ = do
      group ← allocate
      set_leader_index group node_index
      ret group
    let leave : Prog E DynHuffTree ℕ = do
      set_next_node_as_leader node.group
      if freq == prev.freq then ret prev.group else own
    let join : Prog E DynHuffTree ℕ = do free node.group; ret prev.group
    let stay = if freq == prev.freq then join else ret node.group
    group ← if next_in_group t node_index node.group then leave else stay
    put_node node_index (record node { freq = freq; group = group })
    ret node.parent

  -- The walk from a leaf up to the root, at most once through each node.
  pub walk_up : ℕ → ℕ → Prog E DynHuffTree (Unit {0})
  unfolding promote_to_leader increment_frequency
  walk_up zero node_index t = if node_index == 0 then ok tt t else out_of_fuel
  walk_up (suc fuel) node_index t = elim (node_index == 0) [
    | true ↦ ok tt t
    | false ↦ (promote_to_leader node_index >>= increment_frequency >>= walk_up fuel) t
  ]

  unfoldable pub increment_for_value : ℕ → Prog E DynHuffTree (Unit {0})
  unfolding walk_up
  increment_for_value value = do
    root ← get_node 0
    if leb reorder_limit root.freq then rebuild_tree else ret tt
    root' ← get_node 0
    put_node 0 (record root' { freq = root'.freq + 1 })
    node_index ← get_leaf_node_index value
    walk_up num_nodes node_index

-- The loop of `read_entry`: it stops at a leaf. The right child of a branch stands at its index, and
-- the left one before it.
module _ {E S : Type 0} (read_bit : Prog E S ℕ) (nodes : List TreeNode) where
  pub find_leaf : ℕ → TreeNode → Prog E S ℕ
  find_leaf zero node s = out_of_fuel
  find_leaf (suc fuel) node s = elim (Entry.as_type node.entry) [
    | leaf value ↦ ok value s
    | branch index ↦ elim (read_bit s) [
      | ok bit r ↦ elim (ltb index bit) [
        | true ↦ panic
        | false ↦ elim (get_elem? nodes (index - bit)) [
          | some child ↦ find_leaf fuel child r
          | none ↦ panic
        ]
      ]
      | err e r ↦ err e r
      | panic ↦ panic
      | out_of_fuel ↦ out_of_fuel
    ]
  ]

-- `read_entry` on a tree and a bit reader, the two parts of the state. The tree changes only once a
-- leaf is found.
unfoldable pub read_entry : {E S : Type 0} → Prog E S ℕ → Prog E (DynHuffTree × S) ℕ
unfolding find_leaf increment_for_value
read_entry {E} read_bit (t, s) = elim (get_elem? t.nodes 0) [
  | none ↦ panic
  | some root ↦ elim (find_leaf read_bit t.nodes num_nodes root s) [
    | ok value s' ↦ elim (increment_for_value {E = E} value t) [
      | ok _ t' ↦ ok value (t', s')
      | err e t' ↦ err e (t', s')
      | panic ↦ panic
      | out_of_fuel ↦ out_of_fuel
    ]
    | err e s' ↦ err e (t, s')
    | panic ↦ panic
    | out_of_fuel ↦ out_of_fuel
  ]
]
