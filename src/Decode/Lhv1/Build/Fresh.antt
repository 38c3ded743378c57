-- ===== src/Decode/Lhv1/Build/Fresh.antt =====
-- src/decode/lhv1/dyntree.rs: the tree of a new decoder, computed.
use rust_delharc.Prelude.{Bool, true, false, ◌≡◌, refl}
use rust_delharc.Outcome.{Outcome, ok}
use rust_delharc.StaticTree.Entry
use rust_delharc.Decode.Lhv1.Nodes
use rust_delharc.Decode.Lhv1.Build.{
  new, blank_tree, leaf_nodes, leaf_indices, join_pairs, join_levels,
}

abbrev pub is_ok : {E S A : Type 0} → Outcome E S A → Bool
is_ok (ok a s) = true
is_ok _ = false

pub new-ok : (E : Type 0) → is_ok (new {E = E}) ≡ true
unfolding new blank_tree leaf_nodes leaf_indices join_pairs join_levels Nodes.numbers Nodes.load
    Nodes.store Nodes.put_groups Nodes.get_node Nodes.put_node Nodes.new_leaf Nodes.new_branch
    Nodes.reset_groups Nodes.new_groups Nodes.allocate Nodes.set_leader_index Entry.new_leaf
    Entry.new_branch
new-ok E = refl
