-- ===== src/Decode/Lhv1/Build.antt =====
-- src/decode/lhv1/dyntree.rs: `DynHuffTree::new` and `rebuild_tree`.
pub mod Fresh
use rust_delharc.Prelude.{
  ℕ, zero, suc, ◌+◌, ◌-◌, ◌*◌, ◌/◌, ◌%◌, not, true, false, List, [], ◌∷◌, ◌++◌, reverse, length,
  take, replicate, min, ltb, leb, ◌==◌, if◌then◌else◌,
}
use rust_delharc.Outcome.{Outcome, ok, out_of_fuel, Prog, ◌>>=◌, ◌>>◌, ret, crash, get, assert}
use rust_delharc.StaticTree.Entry
use rust_delharc.StaticTree.Entry.{TreeEntry}
use rust_delharc.Decode.Lhv1.Nodes.{
  num_leaves, num_nodes, TreeNode, default_node, new_leaf, new_branch, DynHuffTree, reset_groups,
  new_groups, get_node, put_node, allocate, set_leader_index, set_leaf_node_index, put_groups,
}

-- The leaf nodes of a new tree: the values fall as the indices rise.
pub leaf_nodes : ℕ → ℕ → List TreeNode
leaf_nodes zero group = []
leaf_nodes (suc value) group = new_leaf value group ∷ leaf_nodes value group

pub leaf_indices : ℕ → ℕ → List ℕ
leaf_indices i zero = []
leaf_indices i (suc n) = (num_nodes - 1 - i) ∷ leaf_indices (i + 1) n

-- `last_freq` and `last_group` of `new`.
pub record Last : Type 0 where
  pub freq : ℕ
  pub group : ℕ

module _ {E : Type 0} where
  -- The inner `for` of `new`, over so many pairs of children; the parent of the next pair stands at
  -- `index - 1`, and its right child at `child_end - 1`.
  pub join_pairs : ℕ → ℕ → ℕ → Last → Prog E DynHuffTree Last
  join_pairs zero child_end index last = ret last
  join_pairs (suc pairs) child_end index last = do
    left ← get_node (child_end - 2)
    right ← get_node (child_end - 1)
    put_node (child_end - 2) (record left { parent = index - 1 })
    put_node (child_end - 1) (record right { parent = index - 1 })
    let freq = left.freq + right.freq
    let other : Prog E DynHuffTree Last = do
      set_leader_index last.group index
      group ← allocate
      ret (record { freq = freq; group = group })
    last' ← if not (freq == last.freq) then other else ret last
    put_node (index - 1) (new_branch (child_end - 1) freq last'.group)
    join_pairs pairs (child_end - 2) (index - 1) last'

  -- The `while` of `new`, whose tail gets shorter in each round.
  pub join_levels : ℕ → ℕ → ℕ → Last → Prog E DynHuffTree (Unit {0})
  unfolding join_pairs
  join_levels zero tail_len rest_len last t = out_of_fuel
  join_levels (suc fuel) tail_len rest_len last t =
      let parent_len = tail_len / 2 in
      let head_len = rest_len - parent_len * 2 in
      let head_end = head_len - tail_len % 2 in
      elim (leb tail_len 1) [
        | true ↦ ok tt t
        | false ↦
            (join_pairs (min parent_len head_end) rest_len head_end last
                >>= join_levels fuel (tail_len - parent_len) head_len)
              t
      ]

-- `DynHuffTree::new`, which does not fail. The fields before the loop:
unfoldable pub blank_tree : DynHuffTree
unfolding leaf_nodes leaf_indices
blank_tree = record {
  nodes = replicate (num_nodes - num_leaves) default_node ++ leaf_nodes num_leaves 0;
  leaves = leaf_indices 0 num_leaves;
  groups = new_groups;
}

unfoldable pub new : {E : Type 0} → Outcome E DynHuffTree (Unit {0})
unfolding blank_tree join_levels
new =
    (allocate >>= λ group.
    join_levels num_leaves num_leaves num_nodes (record { freq = 0; group = group }))
      blank_tree

-- The leaves in the order of the nodes, with halved frequencies.
pub damped_leaves : List TreeNode → List (TreeEntry × ℕ)
damped_leaves [] = []
damped_leaves (node ∷ nodes) =
    let rest = damped_leaves nodes in
    if Entry.is_leaf node.entry then (node.entry, (node.freq + 1) / 2) ∷ rest else rest

-- `leaves_riter`, with `next_leaf` at its head.
abbrev Leaves : Type 0
Leaves = List (TreeEntry × ℕ)

module _ {E : Type 0} where
  -- A leaf is put at a node.
  pub place_leaf : TreeEntry × ℕ → ℕ → Prog E DynHuffTree (Unit {0})
  place_leaf (entry, freq) i = do
    set_leaf_node_index (Entry.as_value entry) i
    node ← get_node i
    put_node i (record node { entry = entry; freq = freq })

  -- 1. Leaves until there are two children: `next_leaf.unwrap()` panics when none is left.
  pub fill_children : ℕ → ℕ → Leaves → Prog E DynHuffTree (ℕ × Leaves)
  unfolding place_leaf
  fill_children zero target_len leaves = ret (target_len, leaves)
  fill_children (suc n) target_len leaves = elim (target_len == 0) [
    | true ↦ ret (target_len, leaves)
    | false ↦ elim leaves [
      | [] ↦ crash
      | leaf ∷ rest ↦ place_leaf leaf (target_len - 1) >> fill_children n (target_len - 1) rest
    ]
  ]

  -- 2. Leaves while they are no more frequent than the branch.
  pub fill_leaves : ℕ → ℕ → Leaves → Prog E DynHuffTree (ℕ × Leaves)
  unfolding place_leaf
  fill_leaves branch_freq target_len [] = ret (target_len, [])
  fill_leaves branch_freq target_len ((entry, freq) ∷ leaves) =
      let here = assert (ltb 0 target_len) >> place_leaf (entry, freq) (target_len - 1) in
      let rest = fill_leaves branch_freq (target_len - 1) leaves in
      if ltb branch_freq freq then ret (target_len, (entry, freq) ∷ leaves) else here >> rest

  -- 3. The branch over the last two children.
  pub insert_branch : ℕ → ℕ → ℕ → Prog E DynHuffTree (Unit {0})
  insert_branch child_index branch_freq target = do
    assert (ltb child_index num_nodes)
    node ← get_node target
    put_node target (record node { entry = Entry.set_as_branch child_index; freq = branch_freq })
    left ← get_node (child_index - 1)
    put_node (child_index - 1) (record left { parent = target })
    right ← get_node child_index
    put_node child_index (record right { parent = target })

  -- One round of the `while`, with `nodes.len()` nodes; the new `target_len` and the leaves left.
  -- The sum of the frequencies is one of `u16`.
  pub rebuild_round : ℕ → ℕ → Leaves → Prog E DynHuffTree (ℕ × Leaves)
  unfolding fill_children fill_leaves insert_branch
  rebuild_round nodes_len target_len leaves = do
    let child_index = nodes_len - 1
    let num_children = nodes_len - target_len
    first ← fill_children (2 - num_children) target_len leaves
    left ← get_node (child_index - 1)
    right ← get_node child_index
    let branch_freq = left.freq + right.freq
    assert (ltb branch_freq 65536)
    second ← fill_leaves branch_freq first.0 first.1
    assert (ltb 0 second.0)
    insert_branch child_index branch_freq (second.0 - 1)
    ret (second.0 - 1, second.1)

  -- `while nodes.len() > 2`, two nodes fewer in each round.
  pub rebuild_loop : ℕ → ℕ → ℕ → Leaves → Prog E DynHuffTree (Unit {0})
  unfolding rebuild_round
  rebuild_loop zero nodes_len target_len leaves t = out_of_fuel
  rebuild_loop (suc fuel) nodes_len target_len leaves t = elim (leb nodes_len 2) [
    | true ↦ ok tt t
    | false ↦
        (rebuild_round nodes_len target_len leaves >>= λ next.
        rebuild_loop fuel (nodes_len - 2) next.0 next.1)
          t
  ]

  -- "rebuild groups", from the node at `index` on, with so many nodes to go.
  pub regroup : ℕ → ℕ → ℕ → ℕ → Prog E DynHuffTree (Unit {0})
  regroup zero index freq group = ret tt
  regroup (suc n) index freq group = do
    node ← get_node index
    let other : Prog E DynHuffTree ℕ = do g ← allocate; set_leader_index g index; ret g
    group' ← if node.freq == freq then ret group else other
    put_node index (record node { group = group' })
    regroup n (index + 1) node.freq group'

  unfoldable pub rebuild_tree : Prog E DynHuffTree (Unit {0})
  unfolding damped_leaves rebuild_loop regroup
  rebuild_tree = do
    t ← get
    let leave_nodes = damped_leaves t.nodes
    assert (leb num_leaves (length leave_nodes))
    rebuild_loop num_nodes num_nodes num_nodes (reverse (take num_leaves leave_nodes))
    t' ← get
    put_groups (reset_groups t'.groups)
    group ← allocate
    root ← get_node 0
    put_node 0 (record root { group = group })
    set_leader_index group 0
    regroup (num_nodes - 1) 1 root.freq group
